-- ===== src/Web/Store/Tests.antt =====
-- Runs of the store of URLs at concrete inputs, and instances of its theorems.
use gitlab_procs_exporter.Prelude.{
  ℕ, zero, suc, ◌≡◌, refl, ap, true, false, Option, none, some, List, [], ◌∷◌, ◌==◌, list_eq,
  nat_eq, list_beq, subst, map, All, Bool-cases, inl, inr, some_inj, if◌then◌else◌,
}
use mathlib.Core.Option.{none-ne-some}
use gitlab_procs_exporter.Prelude.Utf8.{valid_string}
use gitlab_procs_exporter.Prelude.Text.{Text, codes}
use gitlab_procs_exporter.Exporter.Samples.{ascii_only}
use gitlab_procs_exporter.Web.Store.{
  StoreFile, missing, content, done, Codec, normalize_url, Writes, add, target_of, remove,
}
use gitlab_procs_exporter.Web.Store.Persist.{
  IsKept, HasNormalized, IsWithout, unchanged, add_lem, remove_lem,
}

-- A code of lists of texts: a one before each byte, a zero at the end of each text.
abbrev pub code_text : Text → Text → Text
code_text [] rest = 0 ∷ rest
code_text (c ∷ s) rest = 1 ∷ (c ∷ code_text s rest)

abbrev pub code_list : List Text → Text
code_list [] = []
code_list (s ∷ xs) = code_text s (code_list xs)

abbrev pub start_text : Option (List Text) → Option (List Text)
start_text none = none
start_text (some xs) = some ([] ∷ xs)

abbrev pub onto_first : ℕ → Option (List Text) → Option (List Text)
onto_first c none = none
onto_first c (some []) = none
onto_first c (some (s ∷ xs)) = some ((c ∷ s) ∷ xs)

abbrev pub decode_list : Text → Option (List Text)
decode_list [] = some []
decode_list (zero ∷ s) = start_text (decode_list s)
decode_list (suc n ∷ []) = none
decode_list (suc n ∷ (c ∷ s)) = onto_first c (decode_list s)

decode-code_text :
    (s : Text) (xs : List Text) (rest : Text)
    → decode_list rest ≡ some xs
    → decode_list (code_text s rest) ≡ some (s ∷ xs)
decode-code_text [] xs rest h = ap start_text h
decode-code_text (c ∷ s) xs rest h = ap (onto_first c) (decode-code_text s xs rest h)

pub decode-code_list : (xs : List Text) → decode_list (code_list xs) ≡ some xs
decode-code_list [] = refl
decode-code_list (s ∷ xs) = decode-code_text s xs (code_list xs) (decode-code_list xs)

-- A text that is not valid becomes one replacement rune.
abbrev pub replacement : Text → Text
replacement s = if valid_string s then s else 239 ∷ (191 ∷ (189 ∷ []))

abbrev pub Intact : List Text → Type 0
Intact xs = All (λ s. replacement s ≡ s) xs

pub replacement-Intact : (s : Text) → replacement (replacement s) ≡ replacement s
unfolding valid_string
replacement-Intact s = elim (Bool-cases (valid_string s)) [
  | inl valid ↦ rw valid (rw valid refl)
  | inr broken ↦ rw broken refl
]

pub map-Intact : (xs : List Text) → Intact (map replacement xs)
map-Intact [] = tt
map-Intact (x ∷ xs) = (replacement-Intact x, map-Intact xs)

abbrev pub replace_all : Option (List Text) → Option (List Text)
replace_all none = none
replace_all (some xs) = some (map replacement xs)

replace_all-Intact :
    (o : Option (List Text)) (urls : List Text) → replace_all o ≡ some urls → Intact urls
replace_all-Intact none urls h = absurd (none-ne-some urls h)
replace_all-Intact (some xs) urls h = subst Intact (some_inj h) (map-Intact xs)

abbrev pub drop_mark : Text → Option (List Text)
drop_mark [] = none
drop_mark (m ∷ s) = replace_all (decode_list s)

pub drop_mark-Intact : (text : Text) (urls : List Text) → drop_mark text ≡ some urls → Intact urls
drop_mark-Intact [] urls h = absurd (none-ne-some urls h)
drop_mark-Intact (m ∷ s) urls h = replace_all-Intact (decode_list s) urls h

pub replacement-valid_string : (s : Text) → valid_string s ≡ true → replacement s ≡ s
replacement-valid_string s valid = rw valid refl

pub never_empty : (xs : List Text) → ((7 ∷ code_list xs) == []) ≡ false
unfolding list_beq
never_empty xs = refl

abbrev pub codec : Codec
codec = record {
  parse_url = λ s. some (codes "https", codes "host");
  decode = drop_mark;
  encode = λ xs. 7 ∷ code_list xs;
  replaced = replacement;
  replaced-valid_string = replacement-valid_string;
  decode-encode = λ xs. ap replace_all (decode-code_list xs);
  decode-IsIntact = drop_mark-Intact;
  encode-ne-nil = never_empty;
}

abbrev pub all_well : Writes
all_well = record { creates = true; writes = true; closes = true; renames = true }

abbrev one_url : StoreFile
one_url = content (7 ∷ code_list (codes "https://host" ∷ []))

added :
    add ascii_only codec all_well (codes " host ") missing
    ≡ (done (codes "https://host" ∷ []), one_url)
unfolding add list_beq
added = refl

add_lem_example :
    IsKept codec missing
      (map codec.replaced)
      (HasNormalized codec (normalize_url ascii_only codec (codes " host ")))
      (add ascii_only codec all_well (codes " host ") missing)
add_lem_example = add_lem ascii_only codec all_well (codes " host ") missing

remove_lem_example :
    IsKept codec one_url unchanged
      (IsWithout
        (codes "host")
        (target_of (codes "host") (normalize_url ascii_only codec (codes "host"))))
      (remove ascii_only codec all_well (codes "host") one_url)
remove_lem_example = remove_lem ascii_only codec all_well (codes "host") one_url
