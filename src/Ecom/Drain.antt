-- ===== src/Ecom/Drain.antt =====
-- What a drain does to the outbox: ecom.outbox-publisher.service.ts.
use layer_backend.Base.{
  ℕ, suc, String, true, false, Option, none, some, List, [], ◌∷◌, ◌++◌, map, length, ◌≡◌, refl, ap,
  ◌∙◌, ◌⊎◌, arith, if◌then◌else◌, sym, inl, inr, Bool,
}
use layer_backend.Shared.Errors.{Exception, message_of}
use layer_backend.Shared.Kafka.{publish}
use layer_backend.Exec.{Result, ok, err, settled, finally, catch, pure}
use layer_backend.Schema.{EcomStockOutbox, OutboxStatus}
use layer_backend.Platform.{Platform, OutgoingMessage}
use layer_backend.Platform.Laws.{find_unique-update_many}
use layer_backend.World.{World, Db, query, execute, call}
use layer_backend.World.Reads.{Fails}
use layer_backend.Ecom.Repositories.{
  outbox_batch_size, is_pending, among, send_row, fail_row, find_pending, mark_sent, mark_published,
  record_failure,
}
use layer_backend.Ecom.Publisher.{
  ecom_topic, to_message, ids_of, settle, drain_batch, drain, publish_pending,
}

module _ (p : Platform) where
  abbrev pub outbox_status : Option EcomStockOutbox → Option OutboxStatus
  outbox_status none = none
  outbox_status (some row) = some row.status

  -- The status of an outbox row.
  abbrev pub status_at : Db p → ℕ → Option OutboxStatus
  status_at db id = outbox_status (p.outbox.find_unique id db.outbox)

  -- The status once the rows of a batch are marked.
  abbrev pub sent_among : List (ℕ × EcomStockOutbox) → ℕ → Option OutboxStatus → Option OutboxStatus
  sent_among rows id none = none
  sent_among rows id (some status) =
      if among (ids_of rows) id then some OutboxStatus.sent else some status

  -- The messages of a batch were handed to Kafka, or nothing was sent.
  abbrev pub Sends : List (ℕ × EcomStockOutbox) → World p → World p → Type 0
  Sends rows w w' = w'.sent ≡ w.sent ++ map to_message rows

  -- How a drain of a batch ends, seen at one row of the outbox.
  abbrev pub Drains : List (ℕ × EcomStockOutbox) → ℕ → World p → Result ℕ × World p → Type 0
  Drains rows id w (ok n, w') =
      ((n ≡ 0) × (w'.sent ≡ w.sent) × (status_at w'.db id ≡ status_at w.db id))
      ⊎ ((n ≡ length rows)
          × Sends rows w w'
          × (status_at w'.db id ≡ sent_among rows id (status_at w.db id)))
  Drains rows id w (err e, w') =
      ((w'.sent ≡ w.sent) × (status_at w'.db id ≡ status_at w.db id))
      ⊎ (Fails p e
          × Sends rows w w'
          × ((status_at w'.db id ≡ status_at w.db id)
              ⊎ (status_at w'.db id ≡ sent_among rows id (status_at w.db id))))

  status-send :
      (rows : List (ℕ × EcomStockOutbox)) (time id : ℕ) (db : Db p)
      → outbox_status (
          p.outbox.find_unique id
            (p.outbox.update_many (λ k row. among (ids_of rows) k) (send_row time) db.outbox))
        ≡ sent_among rows id (status_at db id)
  status-send rows time id db = ground (
    arith,
    find_unique-update_many p.outbox id (λ k row. among (ids_of rows) k) (send_row time) db.outbox,
  )

  status-fail :
      (rows : List (ℕ × EcomStockOutbox)) (error : String) (id : ℕ) (db : Db p)
      → outbox_status (
          p.outbox.find_unique id
            (p.outbox.update_many (λ k row. among (ids_of rows) k) (fail_row error) db.outbox))
        ≡ status_at db id
  status-fail rows error id db = ground (
    arith,
    find_unique-update_many p.outbox id (λ k row. among (ids_of rows) k) (fail_row error) db.outbox,
  )

  -- How the rows of a batch that was sent are marked.
  abbrev Marks : List (ℕ × EcomStockOutbox) → ℕ → World p → World p → Result ℕ × World p → Type 0
  Marks rows id w v (ok n, w') =
      (n ≡ length rows)
      × Sends rows w w'
      × (status_at w'.db id ≡ sent_among rows id (status_at w.db id))
  Marks rows id w v (err e, w') =
      ((p.fault v.tick ≡ some e) ⊎ (p.fault (suc v.tick) ≡ some e))
      × Sends rows w w'
      × ((status_at w'.db id ≡ status_at w.db id)
          ⊎ (status_at w'.db id ≡ sent_among rows id (status_at w.db id)))

  settle-Marks :
      (rows : List (ℕ × EcomStockOutbox)) (id : ℕ) (w : World p) (v : World p)
      → v.db ≡ w.db
      → Sends rows w v
      → Marks rows id w v (settle p rows (ok tt) v)
  unfolding settle mark_sent mark_published execute call
  settle-Marks [] id w v same sends = ground (arith, status-send [] (p.now v.tick) id v.db)
  settle-Marks (r ∷ rows) id w v same sends =
      ground (arith, status-send (r ∷ rows) (p.now v.tick) id v.db)

  settle-sent :
      (rows : List (ℕ × EcomStockOutbox)) (id : ℕ) (w : World p) (v : World p)
      → v.db ≡ w.db
      → Sends rows w v
      → Drains rows id w (settle p rows (ok tt) v)
  settle-sent rows id w v same sends =
      go (settle p rows (ok tt) v) (settle-Marks rows id w v same sends)
    where
      go : (x : Result ℕ × World p) → Marks rows id w v x → Drains rows id w x
      go (ok n, u) marks = inr marks
      go (err e, u) (inl failed, sent, status) = inr ((v.tick, failed), sent, status)
      go (err e, u) (inr failed, sent, status) = inr ((suc v.tick, failed), sent, status)

  settle-refused :
      (rows : List (ℕ × EcomStockOutbox)) (e : Exception) (id : ℕ) (w : World p) (v : World p)
      → v.db ≡ w.db
      → v.sent ≡ w.sent
      → Drains rows id w (settle p rows (err e) v)
  unfolding settle record_failure execute
  settle-refused rows e id w v same sends = ground (arith, status-fail rows (message_of e) id v.db)

  append_nil : (ms : List OutgoingMessage) → ms ≡ ms ++ []
  append_nil [] = refl
  append_nil (m ∷ ms) = ap (λ x. m ∷ x) (append_nil ms)

  -- The producer hands over all messages of a batch, or none.
  abbrev Hands : List (ℕ × EcomStockOutbox) → World p → Result (Unit {0}) × World p → Type 0
  Hands rows v (ok done, u) = Sends rows v u × (u.db ≡ v.db)
  Hands rows v (err e, u) = (u.sent ≡ v.sent) × (u.db ≡ v.db)

  publish-Hands :
      (rows : List (ℕ × EcomStockOutbox)) (v : World p)
      → Hands rows v (publish p (ecom_topic p) (map to_message rows) v)
  unfolding publish
  publish-Hands [] v = (append_nil v.sent, refl)
  publish-Hands (r ∷ rows) v = ground arith

  drain_batch-Drains :
      (rows : List (ℕ × EcomStockOutbox)) (id : ℕ) (w v : World p)
      → v.db ≡ w.db
      → v.sent ≡ w.sent
      → Drains rows id w (drain_batch p rows v)
  unfolding drain_batch settled
  drain_batch-Drains [] id w v same sends = ground arith
  drain_batch-Drains (r ∷ rows) id w v same sends =
      go (publish p (ecom_topic p) (map to_message (r ∷ rows)) v) (publish-Hands (r ∷ rows) v)
    where
      go :
          (x : Result (Unit {0}) × World p)
          → Hands (r ∷ rows) v x
          → Drains (r ∷ rows) id w (settle p (r ∷ rows) x.0 x.1)
      go (ok tt, u) (h, k) = settle-sent (r ∷ rows) id w u (k ∙ same) (ground (arith, h, sends))
      go (err e, u) (h, k) = settle-refused (r ∷ rows) e id w u (k ∙ same) (h ∙ sends)

  -- The rows that a drain finds: at most a hundred that are PENDING, the oldest first.
  abbrev pub batch : World p → List (ℕ × EcomStockOutbox)
  batch w =
      p.outbox.find_many (λ r. is_pending r.1) (λ r. r.1.created_at) (some outbox_batch_size)
        w.db.outbox

  pub drain-Drains : (id : ℕ) (w : World p) → Drains (batch w) id w (drain p w)
  unfolding drain find_pending query
  drain-Drains id w =
      ground (arith, drain_batch-Drains (batch w) id w (record w { tick = suc w.tick }))

  -- How a drain asked for by a worker ends.
  -- How a drain asked for by a worker ends, seen at one row of the outbox.
  abbrev pub Publishes : ℕ → World p → Result ℕ × World p → Type 0
  Publishes id w (ok n, w') =
      (w'.draining ≡ w.draining)
      × (((n ≡ 0) × (w'.sent ≡ w.sent) × (status_at w'.db id ≡ status_at w.db id))
          ⊎ ((w.draining ≡ false)
              × Sends (batch w) w w'
              × (((n ≡ length (batch w))
                    × (status_at w'.db id ≡ sent_among (batch w) id (status_at w.db id)))
                  ⊎ ((n ≡ 0)
                      × (e : Exception) × Fails p e
                      × ((status_at w'.db id ≡ status_at w.db id)
                          ⊎ (status_at w'.db id ≡ sent_among (batch w) id (status_at w.db id)))))))
  Publishes id w (err e, w') = ⊥

  -- What `publishPending` makes of the end of its drain.
  publishes :
      (id : ℕ) (w : World p) (x : Result ℕ × World p)
      → w.draining ≡ false
      → Drains (batch w) id w x
      → Publishes id w (
          finally
            (catch (λ u. x) λ e. pure 0)
            (λ w'. record w' { draining = false })
            (record w { draining = true }))
  publishes id w (ok n, u) free (inl (zero_rows, sent, status)) =
      (sym free, inl (zero_rows, sent, status))
  publishes id w (ok n, u) free (inr (all_rows, sent, status)) =
      (sym free, inr (free, sent, inl (all_rows, status)))
  publishes id w (err e, u) free (inl (sent, status)) = (sym free, inl (refl, sent, status))
  publishes id w (err e, u) free (inr (failed, sent, status)) =
      (sym free, inr (free, sent, inr (refl, e, failed, status)))

  -- `publishPending` while another drain is running, and while none is.
  by_guard :
      (id : ℕ) (w : World p) (busy : Bool)
      → w.draining ≡ busy
      → Publishes id w (
          if busy
          then (ok 0, w)
          else finally
              (catch (drain p) λ e. pure 0)
              (λ w'. record w' { draining = false })
              (record w { draining = true }))
  by_guard id w true busy = (refl, inl (refl, refl, refl))
  by_guard id w false free =
      publishes id w (drain p (record w { draining = true })) free
        (drain-Drains id (record w { draining = true }))

  -- A drain asked for by a worker never rejects and leaves the guard as it was. Seen at any one row
  -- of the outbox, it ends in one of three ways. It sends nothing, returns zero and leaves the status
  -- of the row. Or it sends the messages of its whole batch, returns their number, and the row is
  -- SENT if it is of the batch, and as it was if not. Or it sends the messages of its whole batch,
  -- returns zero since a call of the database fails, and the row is as it was or as in the second
  -- way. While another drain is running only the first happens.
  pub publish_pending-Publishes : (id : ℕ) (w : World p) → Publishes id w (publish_pending p w)
  unfolding publish_pending
  publish_pending-Publishes id w = by_guard id w w.draining refl
