-- ===== src/Shared/Config/Lists.antt =====
-- Comma-separated lists of the configuration: src/shared/config/app-config.service.ts.
use Prim.Native.Char.{Char}
use text.Mathlib.TextBridge.{of_list, to_list-of_list}
use layer_backend.Base.{
  Bool, true, false, List, [], ◌∷◌, ◌++◌, map, not, ◌≡◌, refl, ap, ◌∙◌, ◌&&◌, arith, All,
  if◌then◌else◌, select,
}
use layer_backend.Shared.Config.{
  EnvironmentVariables, is_comma, is_space, is_empty, split_commas, trim_start, trim_end, trim,
  entries, kafka_brokers,
}

-- A written entry: white space, the entry, white space.
pub record Item : Type 0 where
  pub before : List Char
  pub entry : List Char
  pub after : List Char

abbrev pub text_of : Item → List Char
text_of item = (item.before ++ item.entry) ++ item.after

abbrev pub comma : Char
comma = ","

-- Items with commas between them.
unfoldable pub print_items : List Item → List Char
print_items [] = []
print_items (item ∷ []) = text_of item
print_items (item ∷ next ∷ rest) = text_of item ++ comma ∷ print_items (next ∷ rest)

-- An entry has a character, neither begins nor ends with white space, and no part of an item is a
-- comma.
abbrev pub IsItem : Item → Type 0
IsItem item =
    (is_empty item.entry ≡ false)
    × (trim_start item.entry ≡ item.entry)
    × (trim_end item.entry ≡ item.entry)
    × All (λ c. is_space c ≡ true) item.before
    × All (λ c. is_space c ≡ true) item.after
    × All (λ c. is_comma c ≡ false) (text_of item)

split_commas-last : (x : List Char) → All (λ c. is_comma c ≡ false) x → split_commas x ≡ x ∷ []
unfolding split_commas
split_commas-last [] h = refl
split_commas-last (c ∷ x) h = rw (h.0, split_commas-last x h.1) refl

split_commas-next :
    (x rest : List Char)
    → All (λ c. is_comma c ≡ false) x
    → split_commas (x ++ comma ∷ rest) ≡ x ∷ split_commas rest
unfolding split_commas
split_commas-next [] rest h = refl
split_commas-next (c ∷ x) rest h = rw (h.0, split_commas-next x rest h.1) refl

trim_end-spaces : (x : List Char) → All (λ c. is_space c ≡ true) x → trim_end x ≡ []
unfolding trim_end
trim_end-spaces [] h = refl
trim_end-spaces (c ∷ x) h = rw (h.0, trim_end-spaces x h.1) refl

trim_end-append :
    (x y : List Char) → All (λ c. is_space c ≡ true) y → trim_end (x ++ y) ≡ trim_end x
unfolding trim_end
trim_end-append [] y h = trim_end-spaces y h
trim_end-append (c ∷ x) y h = rw (trim_end-append x y h) refl

trim_end-before :
    (x y : List Char)
    → is_empty y ≡ false
    → trim_end y ≡ y
    → (is_empty (x ++ y) ≡ false) × (trim_end (x ++ y) ≡ x ++ y)
unfolding trim_end
trim_end-before [] y h k = (h, k)
trim_end-before (c ∷ x) y h k =
    let (full, same) = trim_end-before x y h k in (refl, rw same (keeps (is_space c) full))
  where
    keeps :
        (b : Bool)
        → is_empty (x ++ y) ≡ false
        → (if b && is_empty (x ++ y) then [] else c ∷ x ++ y) ≡ c ∷ x ++ y
    keeps b full = ground (arith, full)

trim_start-before :
    (x y : List Char) → All (λ c. is_space c ≡ true) x → trim_start (x ++ y) ≡ trim_start y
unfolding trim_start
trim_start-before [] y h = refl
trim_start-before (c ∷ x) y h = rw (h.0) (trim_start-before x y h.1)

trim-text_of : (item : Item) → IsItem item → trim (text_of item) ≡ item.entry
trim-text_of item (full, starts, ends, spaces, more, commas) =
    ap trim_start (
      trim_end-append (item.before ++ item.entry) item.after more
      ∙ (trim_end-before item.before item.entry full ends).1)
    ∙ trim_start-before item.before item.entry spaces
    ∙ starts

kept_entry :
    (entry : List Char) (rest : List (List Char))
    → is_empty entry ≡ false
    → select (λ e. not (is_empty e)) (entry ∷ rest) ≡ entry ∷ select (λ e. not (is_empty e)) rest
kept_entry entry rest full = rw full refl

entries_nothing : entries [] ≡ []
unfolding entries split_commas trim_start trim_end
entries_nothing = refl

entries-print_items :
    (items : List Item)
    → All IsItem items
    → entries (print_items items) ≡ map (λ item. item.entry) items
unfolding entries print_items
entries-print_items [] h = entries_nothing
entries-print_items (item ∷ []) h =
    ap (λ parts. select (λ e. not (is_empty e)) (map trim parts))
      (split_commas-last (text_of item) h.0.5)
    ∙ ap (λ e. select (λ e. not (is_empty e)) (e ∷ [])) (trim-text_of item h.0)
    ∙ kept_entry item.entry [] h.0.0
entries-print_items (item ∷ next ∷ rest) h =
    ap (λ parts. select (λ e. not (is_empty e)) (map trim parts))
      (split_commas-next (text_of item) (print_items (next ∷ rest)) h.0.5)
    ∙ ap
        (λ e.
          select (λ e. not (is_empty e)) (e ∷ map trim (split_commas (print_items (next ∷ rest)))))
        (trim-text_of item h.0)
    ∙ kept_entry item.entry (map trim (split_commas (print_items (next ∷ rest)))) h.0.0
    ∙ ap (λ es. item.entry ∷ es) (entries-print_items (next ∷ rest) h.1)

-- A list of brokers that is written with commas, and with any white space around the entries, is read
-- as those entries, in their order.
pub kafka_brokers-print_items :
    (env : EnvironmentVariables) (items : List Item)
    → All IsItem items
    → kafka_brokers (record env { kafka_brokers = of_list (print_items items) })
      ≡ map (λ item. of_list item.entry) items
unfolding kafka_brokers
kafka_brokers-print_items env items h =
    ap (λ cs. map of_list (entries cs)) (to_list-of_list (print_items items))
    ∙ ap (map of_list) (entries-print_items items h)
    ∙ together items
  where
    together :
        (xs : List Item)
        → map of_list (map (λ item. item.entry) xs) ≡ map (λ item. of_list item.entry) xs
    together [] = refl
    together (x ∷ xs) = ap (λ ys. of_list x.entry ∷ ys) (together xs)
