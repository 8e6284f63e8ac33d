-- ===== src/Web/Store.antt =====
-- cmd/jobreport-web/store.go: the list of Prometheus URLs, kept in one file.
pub mod Persist
pub mod Tests
use gitlab_procs_exporter.Prelude.{
  ◌≡◌, Bool, true, false, not, ◌&&◌, ◌||◌, Option, none, some, List, [], ◌∷◌, ◌++◌, ◌==◌, list_eq,
  nat_eq, if◌then◌else◌, keep, any, map, All,
}
use gitlab_procs_exporter.Prelude.Utf8.{valid_string}
use gitlab_procs_exporter.Prelude.Text.{Text, codes, Unicode, trim_space, contains}

-- The file at the path of the store.
pub data StoreFile : Type 0 where
  missing unreadable : StoreFile
  content : Text → StoreFile

pub data StoreError : Type 0 where
  read_store decode_store required invalid_url bad_scheme missing_host write_store : StoreError

pub data StoreResult {ℓ} (A : Type ℓ) : Type ℓ where
  failed : StoreError → StoreResult A
  done : A → StoreResult A

-- net/url and encoding/json. The encoder replaces each byte that is not valid UTF-8 (`replaced`), so
-- that a list is decoded as it was but for them, and the decoder gives valid texts only. No encoding
-- is empty.
pub record Codec : Type 0 where
  pub parse_url : Text → Option (Text × Text)
  pub decode : Text → Option (List Text)
  pub encode : List Text → Text
  pub replaced : Text → Text
  pub replaced-valid_string : (s : Text) → valid_string s ≡ true → replaced s ≡ s
  pub decode-encode : (urls : List Text) → decode (encode urls) ≡ some (map replaced urls)
  pub decode-IsIntact :
      (text : Text) (urls : List Text) → decode text ≡ some urls → All (λ s. replaced s ≡ s) urls
  pub encode-ne-nil : (urls : List Text) → (encode urls == []) ≡ false

pub or_decode_error : Option (List Text) → StoreResult (List Text)
or_decode_error none = failed decode_store
or_decode_error (some urls) = done urls

unfoldable pub load : Codec → StoreFile → StoreResult (List Text)
unfolding or_decode_error
load c missing = done []
load c unreadable = failed read_store
load c (content text) = if text == [] then done [] else or_decode_error (c.decode text)

-- The checks on what `url.Parse` gives.
pub check_url : Text → Option (Text × Text) → StoreResult Text
check_url s none = failed invalid_url
check_url s (some (scheme, host)) =
    if not (scheme == codes "http") && not (scheme == codes "https")
    then failed bad_scheme
    else if host == []
    then failed missing_host
    else done s

abbrev with_scheme : Text → Text
with_scheme s = if not (contains s (codes "://")) then codes "https://" ++ s else s

unfoldable pub normalize_url : Unicode → Codec → Text → StoreResult Text
unfolding trim_space contains check_url
normalize_url u c raw_url =
    let s = trim_space u raw_url in
    if s == [] then failed required else let s' = with_scheme s in check_url s' (c.parse_url s')

-- Which of the four calls of `writeJSONAtomic` on the temporary file succeed.
pub record Writes : Type 0 where
  pub creates : Bool
  pub writes : Bool
  pub closes : Bool
  pub renames : Bool

-- Only the rename touches the file of the store.
unfoldable pub write_json_atomic :
    Codec → Writes → List Text → StoreFile → StoreResult (List Text) × StoreFile
write_json_atomic c w urls file =
    if w.creates && w.writes && w.closes && w.renames
    then (done urls, content (c.encode urls))
    else (failed write_store, file)

abbrev pub has_url : Text → List Text → Bool
has_url url [] = false
has_url url (x ∷ xs) = x == url || has_url url xs

pub add_loaded :
    Codec
    → Writes
    → Text
    → StoreResult (List Text)
    → StoreFile
    → StoreResult (List Text) × StoreFile
unfolding write_json_atomic
add_loaded c w url (failed e) file = (failed e, file)
add_loaded c w url (done urls) file =
    if has_url url urls then (done urls, file) else write_json_atomic c w (urls ++ url ∷ []) file

pub add_normalized :
    Codec → Writes → StoreResult Text → StoreFile → StoreResult (List Text) × StoreFile
unfolding add_loaded load
add_normalized c w (failed e) file = (failed e, file)
add_normalized c w (done url) file = add_loaded c w url (load c file) file

-- `Add`: the list that is returned, and the file.
unfoldable pub add :
    Unicode → Codec → Writes → Text → StoreFile → StoreResult (List Text) × StoreFile
unfolding add_normalized normalize_url
add u c w raw_url file = add_normalized c w (normalize_url u c raw_url) file

-- `target`
abbrev pub target_of : Text → StoreResult Text → Text
target_of raw_url (failed e) = raw_url
target_of raw_url (done n) = n

abbrev pub is_match : Text → Text → Text → Bool
is_match raw_url target x = x == raw_url || x == target

pub remove_loaded :
    Codec
    → Writes
    → Text
    → Text
    → StoreResult (List Text)
    → StoreFile
    → StoreResult (List Text) × StoreFile
unfolding write_json_atomic keep any
remove_loaded c w raw_url target (failed e) file = (failed e, file)
remove_loaded c w raw_url target (done urls) file =
    if any (is_match raw_url target) urls
    then write_json_atomic c w (keep (λ x. not (is_match raw_url target x)) urls) file
    else (done urls, file)

-- `Remove`
unfoldable pub remove :
    Unicode → Codec → Writes → Text → StoreFile → StoreResult (List Text) × StoreFile
unfolding remove_loaded normalize_url load
remove u c w raw_url file =
    remove_loaded c w raw_url (target_of raw_url (normalize_url u c raw_url)) (load c file) file
