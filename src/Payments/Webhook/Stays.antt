-- ===== src/Payments/Webhook/Stays.antt =====
-- A delivered event that was done stays so, whatever is delivered after it.
use finnri_api.Base.{
  ℕ, ◌≡◌, refl, sym, ap, ◌∙◌, arith, Bool, true, false, Bool-cases, Option-cases, inl, inr, String,
  Option, none, some, List, [], ◌∷◌, if◌then◌else◌,
}
use mathlib.Core.Option.{some-injective}
use finnri_api.Result.{ok, err}
use finnri_api.Table.{Table, find_row, first_row, insert, update}
use finnri_api.Table.Laws.{IsTable, insert-IsTable, update-IsTable}
use finnri_api.Table.Search.{first_row-append_found, first_row-update_other, first_row-Held}
use finnri_api.Payments.Data.{
  PaymentWebhookEvent, received, WebhookEnvelope, PayStore, WebhookService, Applied,
  is_processing_failed,
}
use finnri_api.Payments.Webhook.{
  WebhookRequest, create_event, new_event, same_event, claim_webhook_event, finish_webhook_event,
  conclude, process_claimed, handle_verified, handle_billing_webhook, verify_webhook_signature,
  parse_webhook, record_rejected_webhook, apply_webhook_event, event_id_of, deliver_all,
}
use finnri_api.Payments.Webhook.Frame.{apply_webhook_event-webhooks}

pub again_key : (b : Bool) (k i : ℕ) → (if b then some k else none) ≡ some i → k ≡ i
again_key true k i h = some-injective _ _ h
again_key false k i h = absurd (cc h)

again_failed : (b : Bool) (k i : ℕ) → (if b then some k else none) ≡ some i → b ≡ true
again_failed true k i h = refl
again_failed false k i h = absurd (cc h)

module _ (id type hash : String) (s : PayStore) where
  pub claim-new :
      first_row (same_event id) s.webhooks.rows ≡ none
      → claim_webhook_event id type hash s ≡ (
        some s.webhooks.next_id,
        record s { webhooks = insert s.webhooks (new_event id type hash received "") },
      )
  unfolding claim_webhook_event create_event
  claim-new n = rw (claim_webhook_event, n, create_event, n) refl

  pub claim-again :
      (k : ℕ) (x : PaymentWebhookEvent)
      → first_row (same_event id) s.webhooks.rows ≡ some (k, x)
      → claim_webhook_event id type hash s
        ≡ (if is_processing_failed x.status then some k else none, s)
  unfolding claim_webhook_event
  claim-again k x found = rw (claim_webhook_event, found) refl

module _ (id : String) (k : ℕ) (x : PaymentWebhookEvent)
    (ended : is_processing_failed x.status ≡ false) where
  -- The event's row in a table whose keys are in order.
  abbrev HasRow : Table PaymentWebhookEvent → Type 0
  HasRow t = IsTable t × (first_row (same_event id) t.rows ≡ some (k, x))

  insert-HasRow :
      (t : Table PaymentWebhookEvent) (e : PaymentWebhookEvent) → HasRow t → HasRow (insert t e)
  unfolding insert
  insert-HasRow t e (table, found) =
      (insert-IsTable t e table, first_row-append_found (same_event id) (k, x) t.rows _ found)

  create_event-HasRow :
      (e : PaymentWebhookEvent) (s : PayStore)
      → HasRow s.webhooks
      → HasRow (create_event e s).webhooks
  unfolding create_event
  create_event-HasRow e s h =
      elim (Option-cases (first_row (same_event e.event_id) s.webhooks.rows)) [
        | inl n ↦ rw (create_event, n) (insert-HasRow s.webhooks e h)
        | inr (r, there) ↦ rw (create_event, there) h
      ]

  -- What is claimed is another row than that of an event that is done.
  claim_webhook_event-HasRow :
      (other type hash : String) (s : PayStore)
      → HasRow s.webhooks
      → HasRow (claim_webhook_event other type hash s).1.webhooks
        × ((i : ℕ) → (claim_webhook_event other type hash s).0 ≡ some i → ¬ (i ≡ k))
  claim_webhook_event-HasRow other type hash s (table, found) =
      let held : find_row k s.webhooks.rows ≡ some x =
        first_row-Held (same_event id) k x s.webhooks.rows table.keyed found in
      elim (Option-cases (first_row (same_event other) s.webhooks.rows)) [
        | inl n ↦ rw (claim-new other type hash s n) (
          insert-HasRow s.webhooks _ (table, found),
          λ i c e. absurd (
              cc (
                sym held
                ∙ ap (λ m. find_row m s.webhooks.rows) (sym e ∙ sym (some-injective _ _ c))
                ∙ table.fresh s.webhooks.next_id (omega arith))),
        )
        | inr ((m, y), there) ↦ rw (claim-again other type hash s m y there) (
          (table, found),
          λ i c e.
              let failed : is_processing_failed y.status ≡ true = again_failed _ m i c in
              let key : m ≡ k = again_key _ m i c ∙ e in
              let same : some y ≡ some x =
                sym (first_row-Held (same_event other) m y s.webhooks.rows table.keyed there)
                ∙ ap (λ n. find_row n s.webhooks.rows) key
                ∙ held in
              absurd (
                cc (
                  ap (λ z. is_processing_failed z.status) (some-injective _ _ same),
                  failed,
                  ended,
                )),
        )
      ]

  conclude-HasRow :
      (w : WebhookService) (i : ℕ) (event : String) (a : Applied)
      → ¬ (i ≡ k)
      → HasRow a.1.webhooks
      → HasRow (conclude w i event a).1.webhooks
  unfolding conclude finish_webhook_event update
  conclude-HasRow w i event (ok (status, detail), s) other (table, found) = (
    update-IsTable s.webhooks i _ table,
    first_row-update_other (same_event id) k i x _ s.webhooks.rows (λ e. refl) other found,
  )
  conclude-HasRow w i event (err y, s) other (table, found) = (
    update-IsTable s.webhooks i _ table,
    first_row-update_other (same_event id) k i x _ s.webhooks.rows (λ e. refl) other found,
  )

  process_claimed-HasRow :
      (w : WebhookService) (e : WebhookEnvelope) (o : Option ℕ) (s : PayStore)
      → HasRow s.webhooks
      → ((i : ℕ) → o ≡ some i → ¬ (i ≡ k))
      → HasRow (process_claimed w e o s).1.webhooks
  unfolding process_claimed
  process_claimed-HasRow w e none s h other = h
  process_claimed-HasRow w e (some i) s h other =
      conclude-HasRow w i e.event (apply_webhook_event w e s) (other i refl)
        (rw (apply_webhook_event-webhooks w e s) h)

  handle_verified-HasRow :
      (w : WebhookService) (r : WebhookRequest) (e : WebhookEnvelope) (s : PayStore)
      → HasRow s.webhooks
      → HasRow (handle_verified w r e s).1.webhooks
  unfolding handle_verified
  handle_verified-HasRow w r e s h =
      let (row, other) =
        claim_webhook_event-HasRow (event_id_of w r) e.event (w.sha256_hex r.body) s h in
      process_claimed-HasRow w e _ _ row other

  handle_billing_webhook-HasRow :
      (w : WebhookService) (r : WebhookRequest) (s : PayStore)
      → HasRow s.webhooks
      → HasRow (handle_billing_webhook w r s).1.webhooks
  unfolding handle_billing_webhook record_rejected_webhook
  handle_billing_webhook-HasRow w r s h = elim (Bool-cases w.configured) [
    | inr c ↦ rw c h
    | inl c ↦ elim (Bool-cases (verify_webhook_signature w r.body r.signature)) [
      | inr v ↦ rw (c, v) (create_event-HasRow _ s h)
      | inl v ↦ elim (Option-cases (parse_webhook w r.body)) [
        | inl n ↦ rw (c, v, n) h
        | inr (e, p) ↦ rw (c, v, p) (handle_verified-HasRow w r e s h)
      ]
    ]
  ]

  deliver_all-HasRow :
      (deliveries : List (WebhookService × WebhookRequest)) (s : PayStore)
      → HasRow s.webhooks
      → HasRow (deliver_all deliveries s).webhooks
  unfolding deliver_all
  deliver_all-HasRow [] s h = h
  deliver_all-HasRow ((w, r) ∷ rest) s h =
      deliver_all-HasRow rest _ (handle_billing_webhook-HasRow w r s h)

-- The event is in the ledger, and not for another try.
pub record IsDone (id : String) (s : PayStore) : Type 0 where
  pub row : ℕ
  pub event : PaymentWebhookEvent
  pub found : first_row (same_event id) s.webhooks.rows ≡ some (row, event)
  pub ended : is_processing_failed event.status ≡ false

-- It is, in a table whose keys are in order.
abbrev pub IsKept : String → PayStore → Type 0
IsKept id s = IsTable s.webhooks × IsDone id s

-- Deliveries of any events, this one too, leave an event done that is done.
pub deliver_all-IsKept :
    (id : String) (deliveries : List (WebhookService × WebhookRequest)) (s : PayStore)
    → IsKept id s
    → IsKept id (deliver_all deliveries s)
deliver_all-IsKept id deliveries s (t, d) =
    let (table, found) = deliver_all-HasRow id d.row d.event d.ended deliveries s (t, d.found) in
    (table, record { row = d.row; event = d.event; found = found; ended = d.ended })
