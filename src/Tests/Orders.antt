-- ===== src/Tests/Orders.antt =====
-- The order service's theorems at concrete data.
use go_commerce_microservice.Prelude.{◌≡◌, ◌≢◌, refl, true, false, none, [], ◌∷◌, All, map}
use go_commerce_microservice.Json.{malformed}
use go_commerce_microservice.Sql.{ok, fine, statement}
use go_commerce_microservice.Sql.Rows.{any, count_where, insert_unique}
use go_commerce_microservice.Order.Domain.{OrderStatus, confirmed, failed, new_order}
use go_commerce_microservice.Order.Domain.Totals.{line, IsPriced, sum_subtotals, new_order-IsPriced}
use go_commerce_microservice.Order.Input.{
  validate, validate_fields, validate_items, validate_item, validate_struct,
}
use go_commerce_microservice.Order.Input.Checked.{IsOrderable, validate-IsOrderable}
use go_commerce_microservice.Order.Repository.{
  is_processed, settle_order, confirm_order, save_processed,
}
use go_commerce_microservice.Order.Service.{
  create_order, handle_once, after_lookup, handle_confirm_order, handle_reject_order,
}
use go_commerce_microservice.Order.Status.{status_of, settle}
use go_commerce_microservice.Order.Status.Settled.{
  confirm, reject, perform_all, is_settled, settled_stays,
}
use go_commerce_microservice.Order.Creation.{Outcome, create_order_atomic}
use go_commerce_microservice.Order.Handling.{no_faults, remembers}
use go_commerce_microservice.Order.Redelivered.{
  Handling, stock_reserved, stock_reservation_failed, handle, handle_all, redelivery_ignored,
}
use go_commerce_microservice.Order.Retried.{retry_converges, clean_handling}
use go_commerce_microservice.Tests.Data.{
  uuids, floats, rules, order_faults, broken_off, order_draws, order_input, unpriced, no_orders,
  one_order, confirmed_order,
}

create_order_atomic_example :
    Outcome rules uuids floats order_faults order_draws order_input no_orders
      (create_order rules uuids floats order_faults order_draws order_input no_orders)
create_order_atomic_example =
    create_order_atomic rules uuids floats order_faults order_draws order_input no_orders

accepted : validate rules order_input ≡ none
unfolding validate validate_fields validate_items validate_item validate_struct
accepted = refl

validate-IsOrderable_example : (order_input.items ≢ []) × All IsOrderable order_input.items
validate-IsOrderable_example = validate-IsOrderable rules order_input accepted

new_order-IsPriced_example :
    let o = new_order floats order_draws.fresh 7 9 (unpriced ∷ []) in
    (o.status ≡ OrderStatus.pending)
    × (map line o.items ≡ map line (unpriced ∷ []))
    × All (IsPriced floats o.id) o.items
    × (o.total_amount ≡ sum_subtotals floats 0 o.items)
new_order-IsPriced_example = new_order-IsPriced floats order_draws.fresh 7 9 (unpriced ∷ [])

settled : is_settled (status_of 100 confirmed_order.orders) ≡ true
unfolding status_of
settled = refl

settled_stays_example :
    status_of 100 (perform_all (reject fine 8 100 ∷ confirm fine 9 100 ∷ []) confirmed_order).orders
    ≡ status_of 100 confirmed_order.orders
settled_stays_example =
    settled_stays (reject fine 8 100 ∷ confirm fine 9 100 ∷ []) 100 confirmed_order (tt, (tt, tt))
      settled

handled : (handle_confirm_order no_faults 8 50 100 40 malformed one_order).0 ≡ ok tt
unfolding handle_confirm_order handle_once after_lookup is_processed statement confirm_order
    settle_order save_processed any count_where insert_unique
handled = refl

abbrev reserved_first : Handling
reserved_first = record {
  event = stock_reserved;
  faults = no_faults;
  now = 8;
  inbox_id = 50;
  order_id = 100;
  message_id = 40;
  payload = malformed;
}

abbrev other_failed : Handling
other_failed = record reserved_first {
  event = stock_reservation_failed;
  inbox_id = 52;
  message_id = 41;
}

abbrev failed_again : Handling
failed_again = record reserved_first {
  event = stock_reservation_failed;
  faults = broken_off;
  inbox_id = 51;
}

first_handled : (handle reserved_first one_order).0 ≡ ok tt
unfolding handle
first_handled = handled

redelivery_ignored_example :
    let t = handle_all (other_failed ∷ []) (handle reserved_first one_order).1 in
    (handle failed_again t).1 ≡ t
redelivery_ignored_example =
    redelivery_ignored reserved_first failed_again (other_failed ∷ []) one_order refl first_handled

retry_converges_example :
    let confirm_tried = (handle_confirm_order broken_off 8 50 100 40 malformed one_order).1 in
    let reject_tried = (handle_reject_order broken_off 8 50 100 40 malformed one_order).1 in
    (status_of 100 (handle_confirm_order no_faults 9 51 100 40 malformed confirm_tried).1.orders
      ≡ status_of 100 (handle_confirm_order no_faults 9 51 100 40 malformed one_order).1.orders)
    × (status_of 100 (handle_reject_order no_faults 9 51 100 40 malformed reject_tried).1.orders
        ≡ status_of 100 (handle_reject_order no_faults 9 51 100 40 malformed one_order).1.orders)
retry_converges_example = retry_converges broken_off 8 9 50 51 100 100 40 malformed one_order

unseen : remembers 40 one_order ≡ false
unfolding any
unseen = refl

clean_handling_example :
    (status_of 100 (handle_confirm_order no_faults 8 50 100 40 malformed one_order).1.orders
      ≡ settle confirmed (status_of 100 one_order.orders))
    × (status_of 100 (handle_reject_order no_faults 8 50 100 40 malformed one_order).1.orders
        ≡ settle failed (status_of 100 one_order.orders))
clean_handling_example = clean_handling 8 50 100 100 40 malformed one_order unseen
