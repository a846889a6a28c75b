-- ===== src/Effects/Clean.antt =====
-- What `redact` lets into the ledger (effect_control.py, lines 225-258).
use mathlib.Core.Option.{some-injective}
use cc_suite.Prelude.{
  ℕ, zero, suc, ◌+◌, ◌≤◌, ◌≡◌, refl, Bool, true, false, List, String, str_eq, str_append,
  str_length, str_take, str_length-take, str_length-append, ltb, arith, Bool-cases, inl, inr,
  if◌then◌else◌, Option, none, some, sym, subst, ◌⊎◌, eq_iff,
}
use cc_suite.Effects.Redact.{
  Value, null, boolean, number, text, binary, mapping, sequence, uuid, datetime, other, Items, nil,
  cons, Fields, end, field, Patterns, redacted, truncated_depth, max_text, max_seq, substitute_all,
  set_field, truncation_note, redact_text, digest_text, type_text, redact_at, redact_items,
  redact_fields, and_then, unreadable,
}

abbrev items_count : Items → ℕ
items_count nil = 0
items_count (cons x xs) = suc (items_count xs)

abbrev fields_count : Fields → ℕ
fields_count end = 0
fields_count (field k v rest) = suc (fields_count rest)

abbrev fields_of : Value → Fields
fields_of (mapping fs) = fs
fields_of _ = end

abbrev items_of : Value → Items
items_of (sequence xs) = xs
items_of _ = nil

-- The key and the value stand among so many first entries of a mapping.
abbrev IsEntry : ℕ → Value → Value → Fields → Type 0
IsEntry zero key v fs = ⊥
IsEntry (suc n) key v end = ⊥
IsEntry (suc n) key v (field k w rest) = ((key ≡ k) × (v ≡ w)) ⊎ IsEntry n key v rest

and_then-some {ℓ κ} :
    {A : Type ℓ} {B : Type κ} (o : Option A) (f : A → Option B) {b : B}
    → and_then o f ≡ some b
    → (a : A) × (o ≡ some a) × (f a ≡ some b)
and_then-some none f h = cc
and_then-some (some a) f h = (a, refl, h)

module _ ⦃p : Patterns⦄ where
  -- The texts that may stand in a captured value. One that the patterns went over is at most 512
  -- characters and the note of its truncation long, a note that tells its own length.
  pub data CleanText : String → Type 0 where
    passed :
        (s : String)
        → str_length (redact_text s)
          ≤ max_text + str_length (truncation_note (str_length (substitute_all p.substitutions s)))
        → CleanText (redact_text s)
    cut : CleanText truncated_depth
    digest : (bs : List ℕ) → CleanText (digest_text bs)
    of_uuid : (u : ℕ) → CleanText (p.str_uuid u)
    of_datetime : (t : ℕ) → CleanText (p.str_datetime t)
    of_type : (name : String) → CleanText (type_text name)

  -- The second value is a capture of the first with at most so many levels of containers.
  unfoldable mutual
    pub IsClean : ℕ → Value → Value → Type 0
    IsClean k v null = Unit
    IsClean k v (boolean b) = Unit
    IsClean k v (number s) = Unit
    IsClean k v (text s) = CleanText s
    IsClean (suc k) v (mapping fs) = (fields_count fs ≤ max_seq) × AreCleanFields k (fields_of v) fs
    IsClean (suc k) v (sequence xs) = (items_count xs ≤ max_seq) × AreCleanItems k (items_of v) xs
    IsClean k v out = ⊥

    pub AreCleanItems : ℕ → Items → Items → Type 0
    AreCleanItems k xs nil = Unit
    AreCleanItems k (cons x xs) (cons y ys) = IsClean k x y × AreCleanItems k xs ys
    AreCleanItems k nil (cons y ys) = ⊥

    -- Each entry comes from one of the first 32 of the source: its key is the text of that one's key
    -- as the patterns leave it, and its value is hidden exactly where that text names a secret.
    pub AreCleanFields : ℕ → Fields → Fields → Type 0
    AreCleanFields k src end = Unit
    AreCleanFields k src (field (text key) w rest) =
        ((name : Value) × (v : Value) × (s : String) × IsEntry max_seq name v src
          × (p.str name ≡ some s)
          × (key ≡ redact_text s)
          × (((p.is_secret_key s ≡ true) × (w ≡ text redacted))
              ⊎ ((p.is_secret_key s ≡ false) × IsClean k v w)))
        × AreCleanFields k src rest
    AreCleanFields k src (field key w rest) = ⊥

  redact_text-length :
      (s : String)
      → str_length (redact_text s)
        ≤ max_text + str_length (truncation_note (str_length (substitute_all p.substitutions s)))
  unfolding redact_text
  redact_text-length s = shown_length (substitute_all p.substitutions s)
    where
      shown_length :
          (t : String)
          → str_length (
              if ltb max_text (str_length t)
              then str_append (str_take max_text t) (truncation_note (str_length t))
              else t)
            ≤ max_text + str_length (truncation_note (str_length t))
      shown_length t = elim (Bool-cases (ltb max_text (str_length t))) [
        | inl e ↦ rw e (
            omega (
              arith,
              str_length-take max_text t,
              str_length-append (str_take max_text t) (truncation_note (str_length t)),
            ))
        | inr e ↦ rw e (ground arith)
      ]

  set_field-clean :
      (k : ℕ) (src : Fields) (name v : Value) (s : String) (w : Value) (fs : Fields)
      → IsEntry max_seq name v src
      → p.str name ≡ some s
      → ((p.is_secret_key s ≡ true) × (w ≡ text redacted))
        ⊎ ((p.is_secret_key s ≡ false) × IsClean k v w)
      → AreCleanFields k src fs
      → AreCleanFields k src (set_field (redact_text s) w fs)
  unfolding IsClean set_field
  set_field-clean k src name v s w end i e h hs = ((name, v, s, i, e, refl, h), tt)
  set_field-clean k src name v s w (field (text key) u rest) i e h (a, c) =
      elim (Bool-cases (str_eq key (redact_text s))) [
        | inl f ↦ rw f ((name, v, s, i, e, (eq_iff key (redact_text s)).0 f, h), c)
        | inr f ↦ rw f (a, set_field-clean k src name v s w rest i e h c)
      ]
  set_field-clean k src name v s w (field key u rest) i e h hs = elim hs [ ]

  set_field-count :
      (key : String) (v : Value) (fs : Fields)
      → fields_count (set_field key v fs) ≤ suc (fields_count fs)
  unfolding set_field
  set_field-count key v end = omega arith
  set_field-count key v (field (text k) w rest) = elim (Bool-cases (str_eq k key)) [
    | inl e ↦ rw e (omega arith)
    | inr e ↦ rw e (omega (arith, set_field-count key v rest))
  ]
  set_field-count key v (field k w rest) = omega (arith, set_field-count key v rest)

  items_count-le :
      (k n : ℕ) (xs : Items) {out : Items} → redact_items k n xs ≡ some out → items_count out ≤ n
  unfolding redact_at
  items_count-le k zero xs h = rw (sym (some-injective _ _ h)) (omega arith)
  items_count-le k (suc n) nil h = rw (sym (some-injective _ _ h)) (omega arith)
  items_count-le k (suc n) (cons x xs) h =
      let (y, _, h1) = and_then-some (redact_at k x) _ h in
      let (ys, e, h2) = and_then-some (redact_items k n xs) _ h1 in
      rw (sym (some-injective _ _ h2)) (omega (arith, items_count-le k n xs e))

  fields_count-le :
      (k n : ℕ) (fs out : Fields) {all_of : Fields}
      → redact_fields k n fs out ≡ some all_of
      → fields_count all_of ≤ fields_count out + n
  unfolding redact_at
  fields_count-le k zero fs out h = rw (sym (some-injective _ _ h)) (omega arith)
  fields_count-le k (suc n) end out h = rw (sym (some-injective _ _ h)) (omega arith)
  fields_count-le k (suc n) (field key v rest) out h =
      let (name, _, h1) = and_then-some (p.str key) _ h in
      let kept = if p.is_secret_key name then some (text redacted) else redact_at k v in
      let (w, _, h2) = and_then-some kept _ h1 in
      omega (
        arith,
        fields_count-le k n rest (set_field (redact_text name) w out) h2,
        set_field-count (redact_text name) w out,
      )

  hidden_or_captured :
      (b : Bool) (k : ℕ) (v : Value) (o : Option Value) {w : Value}
      → ((x : Value) → o ≡ some x → IsClean k v x)
      → (if b then some (text redacted) else o) ≡ some w
      → ((b ≡ true) × (w ≡ text redacted)) ⊎ ((b ≡ false) × IsClean k v w)
  hidden_or_captured true k v o h e = inl (refl, sym (some-injective _ _ e))
  hidden_or_captured false k v o h e = inr (refl, h _ e)

  mutual
    unfolding IsClean redact_at

    redact_at-IsClean :
        (k : ℕ) (v : Value) {out : Value} → redact_at k v ≡ some out → IsClean k v out
    redact_at-IsClean zero v h = subst (IsClean zero v) (some-injective _ _ h) cut
    redact_at-IsClean (suc k) null h = subst (IsClean (suc k) null) (some-injective _ _ h) tt
    redact_at-IsClean (suc k) (boolean b) h =
        subst (IsClean (suc k) (boolean b)) (some-injective _ _ h) tt
    redact_at-IsClean (suc k) (number s) h =
        subst (IsClean (suc k) (number s)) (some-injective _ _ h) tt
    redact_at-IsClean (suc k) (text s) h =
        subst (IsClean (suc k) (text s)) (some-injective _ _ h) (passed s (redact_text-length s))
    redact_at-IsClean (suc k) (binary bs) h =
        subst (IsClean (suc k) (binary bs)) (some-injective _ _ h) (digest bs)
    redact_at-IsClean (suc k) (mapping fs) h =
        let (out, e, f) = and_then-some (redact_fields k max_seq fs end) _ h in
        subst (IsClean (suc k) (mapping fs)) (some-injective _ _ f) (
          let few = fields_count-le k max_seq fs end e in omega (arith, few),
          fields-clean k max_seq fs end fs (λ name v i. i) tt e,
        )
    redact_at-IsClean (suc k) (sequence xs) h =
        let (out, e, f) = and_then-some (redact_items k max_seq xs) _ h in
        subst (IsClean (suc k) (sequence xs)) (some-injective _ _ f)
          (items_count-le k max_seq xs e, items-clean k max_seq xs e)
    redact_at-IsClean (suc k) (uuid u) h =
        subst (IsClean (suc k) (uuid u)) (some-injective _ _ h) (of_uuid u)
    redact_at-IsClean (suc k) (datetime t) h =
        subst (IsClean (suc k) (datetime t)) (some-injective _ _ h) (of_datetime t)
    redact_at-IsClean (suc k) unreadable h = cc
    redact_at-IsClean (suc k) (other name) h =
        subst (IsClean (suc k) (other name)) (some-injective _ _ h) (of_type name)

    items-clean :
        (k n : ℕ) (xs : Items) {out : Items}
        → redact_items k n xs ≡ some out
        → AreCleanItems k xs out
    items-clean k zero xs h = subst (AreCleanItems k xs) (some-injective _ _ h) tt
    items-clean k (suc n) nil h = subst (AreCleanItems k nil) (some-injective _ _ h) tt
    items-clean k (suc n) (cons x xs) h =
        let (y, e, h1) = and_then-some (redact_at k x) _ h in
        let (ys, f, h2) = and_then-some (redact_items k n xs) _ h1 in
        subst (AreCleanItems k (cons x xs)) (some-injective _ _ h2)
          (redact_at-IsClean k x e, items-clean k n xs f)

    fields-clean :
        (k n : ℕ) (fs out src : Fields) {all_of : Fields}
        → ((name v : Value) → IsEntry n name v fs → IsEntry max_seq name v src)
        → AreCleanFields k src out
        → redact_fields k n fs out ≡ some all_of
        → AreCleanFields k src all_of
    fields-clean k zero fs out src i h e = subst (AreCleanFields k src) (some-injective _ _ e) h
    fields-clean k (suc n) end out src i h e = subst (AreCleanFields k src) (some-injective _ _ e) h
    fields-clean k (suc n) (field key v rest) out src i h e =
        let (s, str, e1) = and_then-some (p.str key) _ e in
        let value = if p.is_secret_key s then some (text redacted) else redact_at k v in
        let (w, kept, e2) = and_then-some value _ e1 in
        let is_kept =
          hidden_or_captured (p.is_secret_key s) k v (redact_at k v)
            (λ x f. redact_at-IsClean k v f) kept in
        fields-clean k n rest _ src (λ a b x. i a b (inr x))
          (set_field-clean k src key v s w out (i key v (inl (refl, refl))) str is_kept h) e2
