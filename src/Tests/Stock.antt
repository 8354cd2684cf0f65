-- ===== src/Tests/Stock.antt =====
-- The inventory service's theorems at concrete data.
use go_commerce_microservice.Prelude.{◌≡◌, ◌⊎◌, refl, true, false, some, [], ◌∷◌, arith}
use go_commerce_microservice.Error.{Error}
use go_commerce_microservice.Sql.{ok, err, statement}
use go_commerce_microservice.Inventory.Schema.{InventoryDataModel}
use go_commerce_microservice.Inventory.Repository.{check_items, lock_row, examine, in_stock}
use go_commerce_microservice.Inventory.Stock.{IsKeyed, row_of, held}
use go_commerce_microservice.Inventory.Served.{IsSolvent}
use go_commerce_microservice.Sql.Rows.{any, first_where}
use go_commerce_microservice.External.{Uuid}
use go_commerce_microservice.Inventory.Answer.{
  Request, Ending, reserve, remembers, reserve_all_or_nothing,
}
use go_commerce_microservice.Inventory.Consistency.{
  IsConsistent, Conserves, reserve_all, reserve_all-IsConsistent,
}
use go_commerce_microservice.Inventory.Redelivery.{exactly_once}
use go_commerce_microservice.Inventory.Repeats.{repeats, repeat_never_answered}
use go_commerce_microservice.Tests.Data.{uuids, request, repeated, full_stock, pens}

full_stock-IsKeyed : IsKeyed full_stock.inventory
full_stock-IsKeyed = (tt, tt)

reserve_all_or_nothing_example : Ending uuids request full_stock (reserve uuids request full_stock)
reserve_all_or_nothing_example = reserve_all_or_nothing uuids request full_stock full_stock-IsKeyed

abbrev other : Request
other = record request { message_id = 41; order_id = 101 }

exactly_once_example :
    ((e : Error) × (reserve uuids request full_stock ≡ (err e, full_stock)))
    ⊎ ((reserve uuids repeated
          (reserve_all uuids (other ∷ request ∷ []) (reserve uuids request full_stock).1)).1
        ≡ reserve_all uuids (other ∷ request ∷ []) (reserve uuids request full_stock).1)
exactly_once_example =
    exactly_once uuids request repeated (other ∷ request ∷ []) full_stock full_stock-IsKeyed refl

full_stock-IsSolvent : IsSolvent full_stock
unfolding first_where
full_stock-IsSolvent p row h = ground arith

full_stock_ledger :
    (p : Uuid) (row : InventoryDataModel)
    → row_of p full_stock.inventory ≡ some row
    → row.reserved_quantity ≡ held p full_stock.reservations
unfolding first_where
full_stock_ledger p row h = ground arith

full_stock-IsConsistent : IsConsistent full_stock
full_stock-IsConsistent = record {
  keyed = full_stock-IsKeyed;
  solvent = full_stock-IsSolvent;
  ledger = full_stock_ledger;
}

reserve_all-IsConsistent_example :
    IsConsistent (reserve_all uuids (request ∷ repeated ∷ []) full_stock)
    × Conserves full_stock (reserve_all uuids (request ∷ repeated ∷ []) full_stock)
reserve_all-IsConsistent_example =
    reserve_all-IsConsistent uuids (request ∷ repeated ∷ []) full_stock full_stock-IsConsistent

covered :
    check_items uuids repeated.faults 0 [] repeated.items full_stock
    ≡ ok (in_stock ((5, pens) ∷ (5, pens) ∷ []))
unfolding check_items lock_row statement first_where examine
covered = refl

not_yet : remembers repeated.message_id full_stock ≡ false
unfolding any
not_yet = refl

twice : repeats repeated.items ≡ true
unfolding any
twice = refl

repeat_never_answered_example :
    (e : Error) × (reserve uuids repeated full_stock ≡ (err e, full_stock))
repeat_never_answered_example =
    repeat_never_answered uuids repeated full_stock ((5, pens) ∷ (5, pens) ∷ []) covered not_yet
      twice
