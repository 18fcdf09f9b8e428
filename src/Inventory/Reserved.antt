-- ===== src/Inventory/Reserved.antt =====
-- What the messages of created payments leave in the database.
use go_api_practice.Prelude.{
  true, false, some, ◌≡◌, ◌⊎◌, inl, inr, refl, sym, ap, ◌∙◌, arith, String, string_key, ◌&&◌,
  if◌then◌else◌,
}
use go_api_practice.Prelude.Run.{Run, done, done-injective}
use go_api_practice.Partition.{MsgState, success, error}
use go_api_practice.Transaction.{Driver}
use go_api_practice.Inventory.{
  Envelope, PaymentCreatedEvent, InboxEvent, Reservation, Db, Io, has_order, save,
  payment_to_inventory,
}
use go_api_practice.Inventory.Router.{
  event_type_payment_created, get_event_type, get_payment_created_event, outcome_error, saved_rows,
  handle_payment_created, decode_msg, handler_msg, report, consume_msg, handled, payment_created,
  routed, decoded,
}
use go_api_practice.Inventory.Save.{reserved, Aborts, duplicate_inbox, Saved, save-Saved}

module _ {F : Type 0} where
  -- The message tells of a created payment, for which these rows are to be stored.
  abbrev pub Carries : Io F → String → String → Reservation → InboxEvent → Type 0
  Carries io topic value inv e =
      (envelope : Envelope) × (ev : PaymentCreatedEvent F) × (decode_msg io topic value
        ≡ some envelope)
      × (get_event_type topic envelope.op ≡ some event_type_payment_created)
      × (get_payment_created_event io envelope.before envelope.after ≡ done (some ev))
      × (payment_to_inventory io ev event_type_payment_created ≡ some (inv, e))

  -- What Save leaves, with what is reported.
  abbrev pub saved : Driver Db → Io F → InboxEvent → Reservation → Db → Run (Db × MsgState)
  saved d io e inv db = done ((save d io e inv db).0, report (outcome_error (save d io e inv db).2))

  consume_msg-Carries :
      (d : Driver Db) (io : Io F) (topic value : String) (inv : Reservation) (e : InboxEvent)
      (db : Db)
      → Carries io topic value inv e
      → consume_msg d io topic value db ≡ saved d io e inv db
  unfolding consume_msg handler_msg decoded routed payment_created handled handle_payment_created
      saved_rows
  consume_msg-Carries d io topic value inv e db (envelope, ev, dec, type, got, rows) =
      rw (dec, type, got, rows) refl

  -- A message of a created payment whose order has a reservation changes nothing. It is reported as an
  -- error, unless the INSERT into event_inbox failed with the code of a duplicate.
  pub redelivered_message_changes_nothing :
      (d : Driver Db) (io : Io F) (topic value : String) (inv : Reservation) (e : InboxEvent)
      (db : Db)
      → Carries io topic value inv e
      → has_order inv.order_number db.inventory ≡ true
      → Aborts d io.inventory_error inv db
      → consume_msg d io topic value db
        ≡ done (db, (if d.begin_ok && duplicate_inbox io.inbox_error then success else error))
  redelivered_message_changes_nothing d io topic value inv e db c k h =
      consume_msg-Carries d io topic value inv e db c ∙ by_case (save-Saved d io e inv db h)
    where
      by_case :
          Saved d io e inv db (save d io e inv db)
          → saved d io e inv db
            ≡ done (db, (if d.begin_ok && duplicate_inbox io.inbox_error then success else error))
      by_case (inl (stored, ok, new)) = absurd (ground (arith, k, new))
      by_case (inr (inl (same_db, told))) = rw (same_db, told) refl
      by_case (inr (inr (stored, told, new))) = absurd (ground (arith, k, new))

  -- A message of a created payment that is reported as a success has added the row of event_inbox and
  -- the reservation, whose order had none; or else nothing changed, because the INSERT into event_inbox
  -- failed with the code of a duplicate.
  pub reported_success_is_reserved :
      (d : Driver Db) (io : Io F) (topic value : String) (inv : Reservation) (e : InboxEvent)
      (db after : Db)
      → Carries io topic value inv e
      → Aborts d io.inventory_error inv db
      → consume_msg d io topic value db ≡ done (after, success)
      → ((after ≡ reserved e inv db) × (has_order inv.order_number db.inventory ≡ false))
        ⊎ ((after ≡ db) × (duplicate_inbox io.inbox_error ≡ true))
  reported_success_is_reserved d io topic value inv e db after c h r =
      by_case (save-Saved d io e inv db h)
        (done-injective _ _ (sym (consume_msg-Carries d io topic value inv e db c) ∙ r))
    where
      by_case :
          Saved d io e inv db (save d io e inv db)
          → ◌≡◌ {A = Db × MsgState}
              ((save d io e inv db).0, report (outcome_error (save d io e inv db).2))
              (after, success)
          → ((after ≡ reserved e inv db) × (has_order inv.order_number db.inventory ≡ false))
            ⊎ ((after ≡ db) × (duplicate_inbox io.inbox_error ≡ true))
      by_case (inl (stored, ok, new)) p = inl (sym (ap (λ q. q.0) p) ∙ stored, new)
      by_case (inr (inl (same_db, told))) p =
          let dup : (if d.begin_ok && duplicate_inbox io.inbox_error then success else error)
              ≡ success =
            sym told ∙ ap (λ q. q.1) p in
          inr (sym (ap (λ q. q.0) p) ∙ same_db, ground (arith, dup))
      by_case (inr (inr (stored, told, new))) p =
          let wrong : error ≡ success = sym told ∙ ap (λ q. q.1) p in absurd (ground (arith, wrong))
