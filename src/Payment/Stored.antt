-- ===== src/Payment/Stored.antt =====
-- A payment and its event are stored together or not at all.
use mathlib.Core.Path.{subst}
use go_api_practice.Prelude.{
  ℕ, Option, none, some, [], ◌∷◌, ◌++◌, ◌≡◌, ◌≢◌, ◌⊎◌, inl, inr, refl, sym, arith, Bool-cases,
  String,
}
use go_api_practice.Prelude.Int.{ℤ, pos}
use go_api_practice.Transaction.{
  Driver, commit_failed, Ran, finished, Outcome, returned, finish, tx_closure,
}
use go_api_practice.Inbox.{non_existing_int_key}
use go_api_practice.Outbox.{waiting}
use go_api_practice.Payment.{
  Payment, Db, PaymentIo, new_event, insert_payment, insert_event, marshalled, inserted_payment,
  save_payment,
}

-- The database with one more row in each table: the payment under `id`, and an event that is pending
-- and carries the payment as `metadata`.
abbrev pub with_both : PaymentIo → Payment → Db → ℕ → String → Db
with_both io p db id metadata = record {
  payment_orders =
      db.payment_orders
      ++ (record { id = id; order_number = p.order_number; amount = p.amount; status = p.status }
          ∷ []);
  events =
      db.events
      ++ ((
        io.random_string,
        record {
          event_type = "payment_created";
          parent_id = io.itoa id;
          parent_type = "payment";
          parent_metadata = metadata;
          status = waiting;
        },
      )
          ∷ []);
}

-- What the closure ran to: both rows, or an error.
abbrev pub RanBoth : PaymentIo → Payment → Db → Db × Payment × Ran String ℤ → Type 0
RanBoth io p db ran =
    ((id : ℕ) × (metadata : String) × (io.payment_id ≡ some id)
      × (io.marshal (record p { id = id }) ≡ some metadata)
      × (ran ≡ (with_both io p db id metadata, record p { id = id }, finished (pos id) none)))
    ⊎ ((after : Db) × (q : Payment) × (key : ℤ) × (err : String) × (ran
          ≡ (after, q, finished key (some err))))

closure-RanBoth :
    (io : PaymentIo) (p : Payment) (db : Db)
    → RanBoth io p db (inserted_payment io p db io.payment_id)
unfolding inserted_payment marshalled insert_payment insert_event new_event
closure-RanBoth io p db = by_id io.payment_id refl
  where
    by_metadata :
        (id : ℕ) (o : Option String)
        → io.payment_id ≡ some id
        → io.marshal (record p { id = id }) ≡ o
        → RanBoth io p db
            (marshalled io (record p { id = id }) (insert_payment (record p { id = id }) db) o)
    by_metadata id none e m = inr (_, _, _, _, refl)
    by_metadata id (some metadata) e m = elim (Bool-cases io.event_ok) [
      | inl t ↦ inl (id, metadata, e, m, rw t refl)
      | inr t ↦ inr (
        insert_payment (record p { id = id }) db,
        record p { id = id },
        non_existing_int_key,
        "error inserting the event",
        rw t refl,
      )
    ]

    by_id : (o : Option ℕ) → io.payment_id ≡ o → RanBoth io p db (inserted_payment io p db o)
    by_id none e = inr (db, p, _, _, refl)
    by_id (some id) e = by_metadata id (io.marshal (record p { id = id })) e refl

-- How a call of Save can end: with both rows, with none, or with a commit that failed over both.
abbrev pub SavedBoth :
    Driver Db → PaymentIo → Payment → Db → Db × Payment × Outcome String ℤ → Type 0
SavedBoth d io p before result =
    ((id : ℕ) × (metadata : String) × (io.payment_id ≡ some id)
      × (io.marshal (record p { id = id }) ≡ some metadata)
      × (result ≡ (
        with_both io p before id metadata,
        record p { id = id },
        returned (some (pos id)) none,
      )))
    ⊎ ((result.0 ≡ before) × ((key : Option ℤ) → result.2 ≢ returned key none))
    ⊎ ((id : ℕ) × (metadata : String) × (result.0
          ≡ d.failed_commit before (with_both io p before id metadata))
        × (result.2 ≡ returned (some (pos id)) (some commit_failed)))

finish-SavedBoth :
    (d : Driver Db) (io : PaymentIo) (p : Payment) (before : Db) (ran : Db × Payment × Ran String ℤ)
    → RanBoth io p before ran
    → SavedBoth d io p before (finish d before ran)
unfolding finish
finish-SavedBoth d io p before ran (inr (after, q, key, err, e)) =
    subst (λ r. SavedBoth d io p before (finish d before r)) (sym e)
      (inr (inl (refl, λ k h. absurd (ground arith))))
finish-SavedBoth d io p before ran (inl (id, metadata, i, m, e)) =
    subst (λ r. SavedBoth d io p before (finish d before r)) (sym e)
      (elim (Bool-cases d.commit_ok) [
        | inl t ↦ rw t (inl (id, metadata, i, m, refl))
        | inr t ↦ rw t (inr (inr (id, metadata, refl, refl)))
      ])

-- A call of Save that returns no error has added the payment, under the id of its row, which it
-- returns, and an event that waits and carries the payment with this id. A call that returns an error
-- or panics has changed nothing, unless it is the error of the commit, after both rows were written.
pub save_payment_stores_both :
    (d : Driver Db) (io : PaymentIo) (p : Payment) (before : Db)
    → SavedBoth d io p before (save_payment d io p before)
unfolding save_payment tx_closure
save_payment_stores_both d io p before = elim (Bool-cases d.begin_ok) [
  | inl t ↦ rw t (finish-SavedBoth d io p before _ (closure-RanBoth io p before))
  | inr t ↦ rw t (inr (inl (refl, λ k h. absurd (ground arith))))
]
