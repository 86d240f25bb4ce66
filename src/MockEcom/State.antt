-- ===== src/MockEcom/State.antt =====
-- The state of the mock keeps a number of reserved units: tools/mock-ecom.mjs.
use layer_backend.Base.{
  ℕ, suc, String, Bool, true, false, Option, none, some, List, [], ◌∷◌, ◌≡◌, refl, ◌∙◌, arith,
  str_eq, eq_iff, if◌then◌else◌, not,
}
use layer_backend.Base.Int.{ℤ, pos}
use layer_backend.Shared.Json.{Json, Items, Fields, property}
use layer_backend.MockEcom.{
  Reply, Body, empty, malformed, content, Request, initial, set_field, assign, last_property,
  member, is_integer_or_missing, numbered, characters, own_properties, check_patch, apply_patch,
  put_state, handle, serve_all,
}

-- `a ?? b` of two values that may be missing.
abbrev pub either : Option Json → Option Json → Option Json
either none b = b
either (some a) b = some a

property-set_field :
    (k j : String) (v : Json) (f : Fields)
    → property k (set_field j v f) ≡ (if str_eq j k then some v else property k f)
unfolding property set_field
property-set_field k j v Fields.end = refl
property-set_field k j v (Fields.field i w rest) =
    ground (arith, property-set_field k j v rest, eq_iff j k, eq_iff i j, eq_iff i k)

property-assign :
    (k : String) (t f : Fields)
    → property k (assign t f) ≡ either (last_property k f) (property k t)
unfolding assign last_property
property-assign k t Fields.end = refl
property-assign k t (Fields.field i w rest) =
    ground (arith, property-assign k (set_field i w t) rest, property-set_field k i w t)

-- The state has a number of reserved units.
pub data HasNumber (state : Fields) : Type 0 where
  has : (n : ℤ) → property "reserved" state ≡ some (Json.number n) → HasNumber state

-- The state that a request leaves has one.
abbrev Leaves : Reply × Fields → Type 0
Leaves x = HasNumber x.1

-- No index reads like the name of the property.
abbrev pub AreIndices : (ℕ → String) → Type 0
AreIndices print = (n : ℕ) → str_eq (print n) "reserved" ≡ false

module _ (print : ℕ → String) (indices : AreIndices print) where
  numbered-unnamed : (i : ℕ) (xs : Items) → last_property "reserved" (numbered print i xs) ≡ none
  unfolding numbered last_property
  numbered-unnamed i Items.nil = refl
  numbered-unnamed i (Items.cons x xs) = rw (numbered-unnamed (suc i) xs, indices i) refl

  characters-unnamed : (i : ℕ) (s : String) → last_property "reserved" (characters print i s) ≡ none
  unfolding characters last_property
  characters-unnamed i String.[] = refl
  characters-unnamed i (String.◌∷◌ c s) = rw (characters-unnamed (suc i) s, indices i) refl

  own-member :
      (patch : Json)
      → last_property "reserved" (own_properties print patch) ≡ member "reserved" patch
  unfolding own_properties last_property
  own-member (Json.object f) = refl
  own-member (Json.array xs) = numbered-unnamed 0 xs
  own-member (Json.text s) = characters-unnamed 0 s
  own-member Json.null = refl
  own-member (Json.boolean b) = refl
  own-member (Json.number n) = refl
  own-member (Json.fraction s) = refl

  checked-HasNumber :
      (o : Option Json) (t next : Fields)
      → property "reserved" next ≡ either o (property "reserved" t)
      → is_integer_or_missing o ≡ true
      → HasNumber t
      → HasNumber next
  checked-HasNumber none t next e h (has n k) = has n (e ∙ k)
  checked-HasNumber (some (Json.number m)) t next e h k = has m e
  checked-HasNumber (some j) t next e h k = ground arith

  assigned-HasNumber :
      (patch : Json) (t : Fields)
      → is_integer_or_missing (member "reserved" patch) ≡ true
      → HasNumber t
      → HasNumber (assign t (own_properties print patch))
  assigned-HasNumber patch t h k =
      checked-HasNumber (last_property "reserved" (own_properties print patch)) t _
        (property-assign "reserved" t (own_properties print patch)) (rw (own-member patch) h) k

  picked :
      (a b : Bool) (x y z : Reply) (t next : Fields)
      → (not b ≡ true → HasNumber next)
      → HasNumber t
      → Leaves (if a then (x, t) else if b then (y, t) else (z, next))
  picked true b x y z t next h k = k
  picked false true x y z t next h k = k
  picked false false x y z t next h k = h refl

  double_not : (b : Bool) → not (not b) ≡ true → b ≡ true
  double_not true h = refl
  double_not false h = cc

  check_patch-HasNumber :
      (patch : Json) (t : Fields) → HasNumber t → Leaves (check_patch print patch t)
  unfolding check_patch
  check_patch-HasNumber patch t k =
      picked _ (not (is_integer_or_missing (member "reserved" patch))) _ _ _ t _
        (λ h. assigned-HasNumber patch t (double_not _ h) k) k

  apply_patch-HasNumber :
      (patch : Json) (t : Fields) → HasNumber t → Leaves (apply_patch print patch t)
  unfolding apply_patch
  apply_patch-HasNumber Json.null t k = k
  apply_patch-HasNumber patch t k = check_patch-HasNumber patch t k

  put_state-HasNumber :
      (body : Body) (t : Fields) → HasNumber t → HasNumber (put_state print body t).1
  unfolding put_state
  put_state-HasNumber empty t k = apply_patch-HasNumber _ t k
  put_state-HasNumber malformed t k = k
  put_state-HasNumber (content patch) t k = apply_patch-HasNumber patch t k

  kept-HasNumber :
      (b : Bool) (x y : Reply × Fields) → Leaves x → Leaves y → Leaves (if b then x else y)
  kept-HasNumber true x y h k = h
  kept-HasNumber false x y h k = k

  handle-HasNumber : (r : Request) (t : Fields) → HasNumber t → HasNumber (handle print r t).1
  unfolding handle
  handle-HasNumber r t k = kept-HasNumber (str_eq r.method "OPTIONS") _ _ k (
      kept-HasNumber (str_eq r.pathname "/_state") _ _
        (kept-HasNumber (str_eq r.method "PUT") _ _ (put_state-HasNumber r.body t k) k)
        (kept-HasNumber (str_eq r.pathname "/api/reservations") _ _ k k))

  serve_all-keeps :
      (rs : List Request) (t : Fields) → HasNumber t → HasNumber (serve_all print rs t)
  unfolding serve_all
  serve_all-keeps [] t k = k
  serve_all-keeps (r ∷ rs) t k = serve_all-keeps rs (handle print r t).1 (handle-HasNumber r t k)

  initial-HasNumber : HasNumber initial
  unfolding property
  initial-HasNumber = has (pos 0) refl

  -- Whatever requests the mock has taken, its state has a number of reserved units.
  pub serve_all-HasNumber : (rs : List Request) → HasNumber (serve_all print rs initial)
  serve_all-HasNumber rs = serve_all-keeps rs initial initial-HasNumber
