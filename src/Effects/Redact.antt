-- ===== src/Effects/Redact.antt =====
-- `redact` and `_redact_text` (effect_control.py, lines 195-258): what a captured argument keeps. The
-- regular expressions, sha-256, `str` of a key and the decimal form of a number are parameters.
use cc_suite.Prelude.{
  ℕ, zero, suc, Bool, List, [], ◌∷◌, String, str_eq, str_append, str_length, str_take, ltb, length,
  if◌then◌else◌, Option, none, some,
}

-- Python's values as far as `redact` tells them apart. A number stands by its digits, bytes by their
-- numbers, a value whose class or content cannot be read without an error by
-- `unreadable`, and any other object by the name of its
-- type.
mutual
  pub data Value : Type 0 where
    null : Value
    boolean : Bool → Value
    number : String → Value
    text : String → Value
    binary : List ℕ → Value
    mapping : Fields → Value
    sequence : Items → Value
    uuid : ℕ → Value
    datetime : ℕ → Value
    unreadable : Value
    other : String → Value

  pub data Items : Type 0 where
    nil : Items
    cons : Value → Items → Items

  pub data Fields : Type 0 where
    end : Fields
    field : Value → Value → Fields → Fields

pub record Patterns : Type 0 where
  -- `pattern.sub(REDACTED, ·)` for each of `_SECRET_PATTERNS`
  pub substitutions : List (String → String)
  -- `_SECRET_KEY_RE.search`
  pub is_secret_key : String → Bool
  -- the hexadecimal sha-256 of bytes
  pub sha256 : List ℕ → String
  -- `str` of a value, which may raise, of a number, of a UUID and of a datetime
  pub str : Value → Option String
  pub decimal : ℕ → String
  pub str_uuid : ℕ → String
  pub str_datetime : ℕ → String

abbrev pub redacted : String
redacted = "[REDACTED]"

abbrev pub truncated_depth : String
truncated_depth = "[TRUNCATED-DEPTH]"

abbrev pub max_text : ℕ
max_text = 512

abbrev pub max_seq : ℕ
max_seq = 32

abbrev pub max_depth : ℕ
max_depth = 6

abbrev pub substitute_all : List (String → String) → String → String
substitute_all [] s = s
substitute_all (f ∷ fs) s = substitute_all fs (f s)

-- `out[key] = value` of a dict whose keys are texts: a key that stands in it keeps its place.
unfoldable pub set_field : String → Value → Fields → Fields
set_field key v end = field (text key) v end
set_field key v (field (text k) w rest) =
    let later = set_field key v rest in
    if str_eq k key then field (text k) v rest else field (text k) w later
set_field key v (field k w rest) = field k w (set_field key v rest)

-- What comes after a computation that may raise.
abbrev pub and_then {ℓ κ} : {A : Type ℓ} {B : Type κ} → Option A → (A → Option B) → Option B
and_then none f = none
and_then (some a) f = f a

module _ ⦃p : Patterns⦄ where
  unfoldable pub truncation_note : ℕ → String
  truncation_note n = str_append "...[TRUNCATED " (str_append (p.decimal n) " chars]")

  unfoldable pub redact_text : String → String
  unfolding truncation_note
  redact_text s =
      let shown = substitute_all p.substitutions s in
      let n = str_length shown in
      if ltb max_text n then str_append (str_take max_text shown) (truncation_note n) else shown

  unfoldable pub digest_text : List ℕ → String
  digest_text bs =
      str_append "<bytes len="
        (str_append (p.decimal (length bs)) (str_append " sha256=" (str_append (p.sha256 bs) ">")))

  unfoldable pub type_text : String → String
  type_text name = str_append "<" (str_append name ">")

  -- `redact` with so many levels left, the items of a sequence and of a mapping with how many more
  -- of them are kept, and the dict that the mapping's loop has made so far. `none` stands for an error
  -- that leaves it.
  unfoldable mutual
    pub redact_at : ℕ → Value → Option Value
    redact_at zero v = some (text truncated_depth)
    redact_at (suc k) null = some null
    redact_at (suc k) (boolean b) = some (boolean b)
    redact_at (suc k) (number s) = some (number s)
    redact_at (suc k) (text s) = some (text (redact_text s))
    redact_at (suc k) (binary bs) = some (text (digest_text bs))
    redact_at (suc k) (mapping fs) =
        and_then (redact_fields k max_seq fs end) (λ out. some (mapping out))
    redact_at (suc k) (sequence xs) =
        and_then (redact_items k max_seq xs) (λ out. some (sequence out))
    redact_at (suc k) (uuid u) = some (text (p.str_uuid u))
    redact_at (suc k) (datetime t) = some (text (p.str_datetime t))
    redact_at (suc k) unreadable = none
    redact_at (suc k) (other name) = some (text (type_text name))

    pub redact_items : ℕ → ℕ → Items → Option Items
    redact_items k zero xs = some nil
    redact_items k (suc n) nil = some nil
    redact_items k (suc n) (cons x xs) =
        let later = redact_items k n xs in
        and_then (redact_at k x) (λ y. and_then later (λ ys. some (cons y ys)))

    pub redact_fields : ℕ → ℕ → Fields → Fields → Option Fields
    redact_fields k zero fs out = some out
    redact_fields k (suc n) end out = some out
    redact_fields k (suc n) (field key v rest) out =
        let value = redact_at k v in
        and_then (p.str key) (λ name.
          let kept = if p.is_secret_key name then some (text redacted) else value in
          and_then kept (λ w. redact_fields k n rest (set_field (redact_text name) w out)))

  -- `redact(value)`
  unfoldable pub redact : Value → Option Value
  unfolding redact_at
  redact v = redact_at (suc max_depth) v
