-- ===== src/Inventory/Save.antt =====
-- What a call of InventoryService.Save leaves, and what is reported of it.
use mathlib.Core.Path.{subst}
use go_api_practice.Prelude.{
  Bool, true, false, Option, none, some, [], ◌∷◌, ◌++◌, ◌≡◌, ◌≢◌, ◌⊎◌, inl, inr, refl, sym, arith,
  Bool-cases, ◌&&◌, if◌then◌else◌,
}
use go_api_practice.Prelude.Int.{ℤ}
use go_api_practice.Partition.{success, error}
use go_api_practice.Transaction.{Driver, Outcome, finish, tx_closure}
use go_api_practice.AppError.{Err, is_duplicate_key_err, as_app_error, as_pq_error, tx_error}
use go_api_practice.Inventory.{
  InboxEvent, Reservation, Db, Io, has_order, insert_inventory, insert_inventory_row,
  insert_inbox_row, kept, saved_inbox, save_closure, save,
}
use go_api_practice.Inventory.Router.{outcome_error, report}

-- The database with a row more in both tables.
abbrev pub reserved : InboxEvent → Reservation → Db → Db
reserved e inv db = record {
  event_inbox = db.event_inbox ++ (e ∷ []);
  inventory = db.inventory ++ (inv ∷ []);
}

-- A transaction of PostgreSQL in which a statement failed is not committed: lib/pq rolls it back and
-- returns an error. This is said of the INSERT into `inventory`.
abbrev pub Aborts : Driver Db → Option Err → Reservation → Db → Type 0
Aborts d err inv db =
    (has_order inv.order_number db.inventory ≡ true) ⊎ (err ≢ none)
    → (d.commit_ok ≡ false) × ((after : Db) → d.failed_commit db after ≡ db)

-- Whether the INSERT into event_inbox failed with the code of a duplicate.
abbrev pub duplicate_inbox : Option Err → Bool
duplicate_inbox none = false
duplicate_inbox (some err) = is_duplicate_key_err err

module _ {F : Type 0} where
  -- How a call of Save can end.
  abbrev pub Saved :
      Driver Db → Io F → InboxEvent → Reservation → Db → Db × Unit {0} × Outcome Err ℤ → Type 0
  Saved d io e inv db r =
      ((r.0 ≡ reserved e inv db)
        × (report (outcome_error r.2) ≡ success)
        × (has_order inv.order_number db.inventory ≡ false))
      ⊎ ((r.0 ≡ db)
          × (report (outcome_error r.2)
              ≡ (if d.begin_ok && duplicate_inbox io.inbox_error then success else error)))
      ⊎ (r.0 ≡ d.failed_commit db (reserved e inv db))
        × (report (outcome_error r.2) ≡ error)
        × (has_order inv.order_number db.inventory ≡ false)

  -- The rest of a transaction in which the INSERT into event_inbox succeeded.
  inserted-Saved :
      (d : Driver Db) (io : Io F) (e : InboxEvent) (inv : Reservation) (db : Db)
      → Aborts d io.inventory_error inv db
      → d.begin_ok ≡ true
      → io.inbox_error ≡ none
      → Saved d io e inv db (finish d db (save_closure io e inv db))
  unfolding save_closure saved_inbox insert_inbox_row kept insert_inventory insert_inventory_row
      finish outcome_error tx_error as_app_error
  inserted-Saved d io e inv db h b n =
      by_row (has_order inv.order_number db.inventory) io.inventory_error refl refl
    where
      by_row :
          (known : Bool) (err : Option Err)
          → has_order inv.order_number db.inventory ≡ known
          → io.inventory_error ≡ err
          → Saved d io e inv db (finish d db (save_closure io e inv db))
      by_row true err k i = let a = h (inl k) in rw (n, k, a.0, b) (inr (inl (a.1 _, refl)))
      by_row false none k i = elim (Bool-cases d.commit_ok) [
        | inl c ↦ rw (n, k, i, c) (inl (refl, refl, refl))
        | inr c ↦ rw (n, k, i, c) (inr (inr (refl, refl, refl)))
      ]
      by_row false (some f) k i =
          let a = h (inr (λ z. absurd (ground (arith, i, z)))) in
          rw (n, k, i, a.0, b) (inr (inl (a.1 _, refl)))

  -- The rest of one in which it failed.
  refused-Saved :
      (d : Driver Db) (io : Io F) (e : InboxEvent) (inv : Reservation) (db : Db) (err : Err)
      → d.begin_ok ≡ true
      → io.inbox_error ≡ some err
      → Saved d io e inv db (finish d db (save_closure io e inv db))
  unfolding save_closure saved_inbox insert_inbox_row finish outcome_error tx_error as_app_error
      as_pq_error
  refused-Saved d io e inv db err b n = by_code (is_duplicate_key_err err) d.rollback_ok refl refl
    where
      by_code :
          (known ok : Bool)
          → is_duplicate_key_err err ≡ known
          → d.rollback_ok ≡ ok
          → Saved d io e inv db (finish d db (save_closure io e inv db))
      by_code true true k r = rw (n, k, r, b) (inr (inl (refl, refl)))
      by_code true false k r = rw (n, k, r, b) (inr (inl (refl, refl)))
      by_code false true k r = rw (n, k, r, b) (inr (inl (refl, refl)))
      by_code false false k r = rw (n, k, r, b) (inr (inl (refl, refl)))

  pub save-Saved :
      (d : Driver Db) (io : Io F) (e : InboxEvent) (inv : Reservation) (db : Db)
      → Aborts d io.inventory_error inv db
      → Saved d io e inv db (save d io e inv db)
  unfolding save tx_closure outcome_error tx_error as_app_error
  save-Saved d io e inv db h = elim (Bool-cases d.begin_ok) [
    | inl b ↦
        let opened : save d io e inv db ≡ finish d db (save_closure io e inv db) = rw b refl in
        subst (λ r. Saved d io e inv db r) (sym opened) (by_error io.inbox_error b refl)
    | inr b ↦ rw b (inr (inl (refl, refl)))
  ]
    where
      by_error :
          (o : Option Err)
          → d.begin_ok ≡ true
          → io.inbox_error ≡ o
          → Saved d io e inv db (finish d db (save_closure io e inv db))
      by_error none b n = inserted-Saved d io e inv db h b n
      by_error (some err) b n = refused-Saved d io e inv db err b n
