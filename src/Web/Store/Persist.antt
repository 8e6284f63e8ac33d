-- ===== src/Web/Store/Persist.antt =====
-- What is in the file after a change, and that a change that fails leaves it alone.
use gitlab_procs_exporter.Prelude.{
  ◌≡◌, refl, ap, sym, subst, ◌∙◌, Bool, true, false, not, ◌&&◌, Option, none, some, List, [], ◌∷◌,
  ◌++◌, ◌==◌, arith, eq_iff, list_eq, nat_eq, keep, any, map, All, All-append, Bool-cases, inl, inr,
}
use gitlab_procs_exporter.Prelude.Text.{Text, Unicode}
use gitlab_procs_exporter.Prelude.Utf8.{valid_string}
use gitlab_procs_exporter.Web.Store.{
  StoreFile, missing, unreadable, content, or_decode_error, StoreResult, failed, done, Codec, load,
  normalize_url, Writes, write_json_atomic, has_url, add_loaded, add_normalized, add, target_of,
  is_match, remove_loaded, remove,
}

-- A success is what the file now holds, but for what storing does to it, and has the property; a
-- failure left the file as it was.
abbrev pub IsKept :
    Codec
    → StoreFile
    → (List Text → List Text)
    → (List Text → Type 0)
    → StoreResult (List Text) × StoreFile
    → Type 0
IsKept c file stored P (failed e, file') = file' ≡ file
IsKept c file stored P (done urls, file') = (load c file' ≡ done (stored urls)) × P urls

-- Storing changes none of the texts.
abbrev IsIntact : Codec → List Text → Type 0
IsIntact c urls = All (λ s. c.replaced s ≡ s) urls

map-IsIntact : (c : Codec) (urls : List Text) → IsIntact c urls → map c.replaced urls ≡ urls
map-IsIntact c [] h = refl
map-IsIntact c (x ∷ xs) (hx, h) =
    ap (λ y. y ∷ map c.replaced xs) hx ∙ ap (λ ys. x ∷ ys) (map-IsIntact c xs h)

done_inj : {xs ys : List Text} → done xs ≡ done ys → xs ≡ ys
done_inj h = cc

or_decode_error-IsIntact :
    (c : Codec) (text : Text) (o : Option (List Text)) (urls : List Text)
    → c.decode text ≡ o
    → or_decode_error o ≡ done urls
    → IsIntact c urls
unfolding or_decode_error
or_decode_error-IsIntact c text none urls e h = cc
or_decode_error-IsIntact c text (some xs) urls e h =
    subst (IsIntact c) (done_inj h) (c.decode-IsIntact text xs e)

load-IsIntact :
    (c : Codec) (file : StoreFile) (urls : List Text) → load c file ≡ done urls → IsIntact c urls
unfolding load
load-IsIntact c missing urls h = subst (IsIntact c) (done_inj h) tt
load-IsIntact c unreadable urls h = cc
load-IsIntact c (content text) urls h = elim (Bool-cases (text == [])) [
  | inl e ↦ subst (IsIntact c) (done_inj (rw e at h)) tt
  | inr ne ↦ or_decode_error-IsIntact c text (c.decode text) urls refl (rw ne at h)
]

keep-IsIntact :
    (c : Codec) (p : Text → Bool) (urls : List Text) → IsIntact c urls → IsIntact c (keep p urls)
unfolding keep
keep-IsIntact c p [] h = tt
keep-IsIntact c p (x ∷ xs) (hx, h) = elim (Bool-cases (p x)) [
  | inl kept ↦ rw kept (hx, keep-IsIntact c p xs h)
  | inr dropped ↦ rw dropped (keep-IsIntact c p xs h)
]

load-encode :
    (c : Codec) (urls : List Text) → load c (content (c.encode urls)) ≡ done (map c.replaced urls)
unfolding load or_decode_error
load-encode c urls = rw (c.encode-ne-nil urls, c.decode-encode urls) refl

write_json_atomic-IsKept :
    (c : Codec) (w : Writes) (stored : List Text → List Text) (urls : List Text) (file : StoreFile)
    (P : List Text → Type 0)
    → map c.replaced urls ≡ stored urls
    → P urls
    → IsKept c file stored P (write_json_atomic c w urls file)
unfolding write_json_atomic
write_json_atomic-IsKept c w stored urls file P e p =
    elim (Bool-cases (w.creates && w.writes && w.closes && w.renames)) [
      | inl all_well ↦ rw all_well (load-encode c urls ∙ ap done e, p)
      | inr broken ↦ rw broken refl
    ]

has_url-append : (url : Text) (urls : List Text) → has_url url (urls ++ url ∷ []) ≡ true
has_url-append url [] = ground (arith, eq_iff url url)
has_url-append url (x ∷ xs) = ground (arith, has_url-append url xs)

-- The list has the URL, and is stored without a change, if the URL is valid UTF-8.
abbrev pub HasUrl : Codec → Text → List Text → Type 0
HasUrl c url urls =
    (has_url url urls ≡ true) × (valid_string url ≡ true → map c.replaced urls ≡ urls)

add_loaded-IsKept :
    (c : Codec) (w : Writes) (url : Text) (r : StoreResult (List Text)) (file : StoreFile)
    → load c file ≡ r
    → IsKept c file (map c.replaced) (HasUrl c url) (add_loaded c w url r file)
unfolding add_loaded
add_loaded-IsKept c w url (failed e) file h = refl
add_loaded-IsKept c w url (done urls) file h =
    let intact : IsIntact c urls = load-IsIntact c file urls h in
    elim (Bool-cases (has_url url urls)) [
      | inl old ↦
          rw old (
            h ∙ ap done (sym (map-IsIntact c urls intact)),
            (old, (λ _. map-IsIntact c urls intact)),
          )
      | inr new ↦ rw new (
          write_json_atomic-IsKept c w (map c.replaced) (urls ++ url ∷ []) file (HasUrl c url) refl
            (
              has_url-append url urls,
              (λ valid. map-IsIntact c (urls ++ url ∷ []) (
                  All-append (λ s. c.replaced s ≡ s) urls (url ∷ []) intact
                    (c.replaced-valid_string url valid, tt))),
            ))
    ]

-- What the list of a change that succeeds has, from what the URL is normalized to.
abbrev pub HasNormalized : Codec → StoreResult Text → List Text → Type 0
HasNormalized c (failed e) urls = ⊥
HasNormalized c (done url) urls = HasUrl c url urls

add_normalized-IsKept :
    (c : Codec) (w : Writes) (r : StoreResult Text) (file : StoreFile)
    → IsKept c file (map c.replaced) (HasNormalized c r) (add_normalized c w r file)
unfolding add_normalized
add_normalized-IsKept c w (failed e) file = refl
add_normalized-IsKept c w (done url) file = add_loaded-IsKept c w url (load c file) file refl

-- If `Add` succeeds, the file holds the list that is returned, but for bytes that are not valid UTF-8,
-- which the encoder replaces, and the normalized URL is in the list; where that URL is valid, the
-- file holds the list itself. If `Add` fails, for whatever reason, the file is as it was.
pub add_lem :
    (u : Unicode) (c : Codec) (w : Writes) (raw_url : Text) (file : StoreFile)
    → IsKept c file
        (map c.replaced)
        (HasNormalized c (normalize_url u c raw_url))
        (add u c w raw_url file)
unfolding add
add_lem u c w raw_url file = add_normalized-IsKept c w (normalize_url u c raw_url) file

-- Neither form of the URL is in the list.
abbrev pub IsWithout : Text → Text → List Text → Type 0
IsWithout raw_url target urls = any (is_match raw_url target) urls ≡ false

-- The list as it is.
abbrev pub unchanged : List Text → List Text
unchanged urls = urls

keep-IsWithout :
    (raw_url target : Text) (urls : List Text)
    → IsWithout raw_url target (keep (λ x. not (is_match raw_url target x)) urls)
unfolding keep any
keep-IsWithout raw_url target [] = refl
keep-IsWithout raw_url target (x ∷ xs) = elim (Bool-cases (is_match raw_url target x)) [
  | inl match ↦ rw match (keep-IsWithout raw_url target xs)
  | inr other ↦ rw other (rw other (keep-IsWithout raw_url target xs))
]

remove_loaded-IsKept :
    (c : Codec) (w : Writes) (raw_url target : Text) (r : StoreResult (List Text))
    (file : StoreFile)
    → load c file ≡ r
    → IsKept c file unchanged (IsWithout raw_url target) (remove_loaded c w raw_url target r file)
unfolding remove_loaded
remove_loaded-IsKept c w raw_url target (failed e) file h = refl
remove_loaded-IsKept c w raw_url target (done urls) file h =
    elim (Bool-cases (any (is_match raw_url target) urls)) [
      | inl found ↦ rw found (
          write_json_atomic-IsKept c w unchanged _ file (IsWithout raw_url target)
            (map-IsIntact c _ (
              keep-IsIntact c (λ x. not (is_match raw_url target x)) urls
                (load-IsIntact c file urls h)))
            (keep-IsWithout raw_url target urls))
      | inr absent ↦ rw absent (h, absent)
    ]

-- If `Remove` succeeds, the file holds the list that is returned, and neither the URL as it was given
-- nor its normalized form is in it; if it fails, the file is as it was.
pub remove_lem :
    (u : Unicode) (c : Codec) (w : Writes) (raw_url : Text) (file : StoreFile)
    → IsKept c file unchanged
        (IsWithout raw_url (target_of raw_url (normalize_url u c raw_url)))
        (remove u c w raw_url file)
unfolding remove
remove_lem u c w raw_url file =
    remove_loaded-IsKept c w raw_url (target_of raw_url (normalize_url u c raw_url)) (load c file)
      file refl
