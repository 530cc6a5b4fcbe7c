-- ===== src/Go/Json.antt =====
-- A JSON object whose values are numbers and texts, as `encoding/json` writes and reads it for a struct.
use sysbox.Prelude.{
  ℕ, ◌+◌, ◌≡◌, Bool, true, ◌&&◌, List, All, Result, ok, all, leb, ltb, if◌then◌else◌, map,
}
use sysbox.Go.Strings.{Text, text_eq}

pub data JsonValue : Type 0 where
  json_number : ℕ → JsonValue
  json_text : Text → JsonValue

-- The text of an object with these fields in order, and the fields of the first object of a text;
-- `valid` is whether a text is valid UTF-8, which the encoder would replace otherwise.
pub record JsonObjects : Type 0 where
  pub encode : List (Text × JsonValue) → Result Text
  pub parse : Text → Result (List (Text × JsonValue))
  pub valid : Text → Bool

unfoldable pub is_ascii : Text → Bool
unfolding all
is_ascii t = all (λ c. ltb c 128) t

abbrev pub IsValid : JsonObjects → JsonValue → Type 0
IsValid json (json_number n) = Unit
IsValid json (json_text t) = json.valid t ≡ true

abbrev pub AreValid : JsonObjects → List (Text × JsonValue) → Type 0
AreValid json = All (λ f. (is_ascii f.0 ≡ true) × IsValid json f.1)

-- What is written for valid texts is read again.
pub record JsonLaws (json : JsonObjects) : Type 0 where
  pub parse-encode :
      (fields : List (Text × JsonValue)) {t : Text}
      → AreValid json fields
      → json.encode fields ≡ ok t
      → json.parse t ≡ ok fields

lower : ℕ → ℕ
lower c = if leb b'A' c && leb c b'Z' then c + 32 else c

-- Whether a key is the name of a field, but for the case of ASCII letters.
unfoldable pub names_field : Text → Text → Bool
unfolding lower
names_field key name = text_eq (map lower key) (map lower name)
