-- ===== src/Platform/Laws.antt =====
-- Reading one row of a table after each kind of write, from the laws of the Prisma client.
use mathlib.Core.Option
use layer_backend.Base.{Bool, none, some, ◌≡◌, ◌∙◌, sym, ap, arith, if◌then◌else◌}
use layer_backend.Base.Int.{ℤ, ◌+ℤ◌}
use layer_backend.Base.Rows
use layer_backend.Base.Rows.{
  Key, upserted, updated, share, lookup-upsert, lookup-update_many, total-upsert,
}
use layer_backend.Platform.{Model}

module _ {K R : Type 0} {key : Key K} (m : Model key R) where
  open key use {same, same_iff}

  pub find_unique-upsert :
      (k j : K) (new : R) (change : R → R) (t : m.Table)
      → m.find_unique j (m.upsert k new change t)
        ≡ (if same k j then some (upserted new change (m.find_unique j t)) else m.find_unique j t)
  find_unique-upsert k j new change t =
      rw (m.find_unique-rows, m.find_unique-rows, m.rows-upsert)
        (lookup-upsert key k j new change (m.rows t))

  pub find_unique-upsert_self :
      (k : K) (new : R) (change : R → R) (t : m.Table)
      → m.find_unique k (m.upsert k new change t) ≡ some (upserted new change (m.find_unique k t))
  find_unique-upsert_self k new change t =
      find_unique-upsert k k new change t ∙ ground (arith, same_iff k k)

  pub find_unique-update_many :
      (j : K) (test : K → R → Bool) (change : R → R) (t : m.Table)
      → m.find_unique j (m.update_many test change t)
        ≡ Option.map (updated test change j) (m.find_unique j t)
  find_unique-update_many j test change t =
      rw (m.find_unique-rows, m.find_unique-rows, m.rows-update_many)
        (lookup-update_many key j test change (m.rows t))

  pub sum-upsert :
      (f : K → R → ℤ) (k : K) (new : R) (change : R → R) (t : m.Table)
      → m.sum f (m.upsert k new change t) +ℤ share f k (m.find_unique k t)
        ≡ m.sum f t +ℤ f k (upserted new change (m.find_unique k t))
  sum-upsert f k new change t =
      rw (m.sum-rows, m.sum-rows, m.rows-upsert, m.find_unique-rows)
        (total-upsert key f k new change (m.rows t))

  -- A message that is there already is not created again.
  pub create_new_seen :
      (k : K) (r old : R) (t : m.Table) → m.find_unique k t ≡ some old → m.create_new k r t ≡ (0, t)
  create_new_seen k r old t e = m.create_new-create k r t ∙ ground (arith, e)

  pub create_new_fresh :
      (k : K) (r : R) (t : m.Table)
      → m.find_unique k t ≡ none
      → m.create_new k r t ≡ (1, m.create k r t)
  create_new_fresh k r t e = m.create_new-create k r t ∙ ground (arith, e)

  pub find_unique-create_fresh :
      (k : K) (r : R) (t : m.Table)
      → m.find_unique k t ≡ none
      → m.find_unique k (m.create k r t) ≡ some r
  find_unique-create_fresh k r t e =
      m.find_unique-rows k (m.create k r t)
      ∙ ap (Rows.lookup same k) (m.rows-create k r t)
      ∙ Rows.lookup-append_new key k r (m.rows t) (sym (m.find_unique-rows k t) ∙ e)

  -- A row that is there stays when another is added.
  pub find_unique-create_kept :
      (j k : K) (r old : R) (t : m.Table)
      → m.find_unique j t ≡ some old
      → m.find_unique j (m.create k r t) ≡ some old
  find_unique-create_kept j k r old t e =
      m.find_unique-rows j (m.create k r t)
      ∙ ap (Rows.lookup same j) (m.rows-create k r t)
      ∙ Rows.lookup-append_old key j k r old (m.rows t) (sym (m.find_unique-rows j t) ∙ e)

  pub find_unique-create_missing :
      (j k : K) (r : R) (t : m.Table)
      → m.find_unique j t ≡ none
      → m.find_unique j (m.create k r t) ≡ (if same k j then some r else none)
  find_unique-create_missing j k r t e =
      m.find_unique-rows j (m.create k r t)
      ∙ ap (Rows.lookup same j) (m.rows-create k r t)
      ∙ Rows.lookup-append_missing key j k r (m.rows t) (sym (m.find_unique-rows j t) ∙ e)
