-- ===== src/Inbox/Lines.antt =====
-- `_complete_lines` and `read_from_cursor` (durable_inbox.py, lines 81-94 and 141-157).
use Prim.Native.Char.{Char, code}
use Prim.Native.String.append
use cc_suite.Prelude.{
  ℕ, ◌≡◌, refl, Bool, true, false, ◌||◌, Option, none, some, List, [], ◌∷◌, ◌++◌, String, nonblank,
  ◌==◌, if◌then◌else◌, filter, length, drop, str_append, is_truthy, arith, Bool-cases, inl, inr, ap,
  sym, ◌∙◌,
}

abbrev is_newline : Char → Bool
is_newline c = code c == 10

-- `raw.endswith("\n")`
ends_with_newline : String → Bool
ends_with_newline String.[] = false
ends_with_newline (String.◌∷◌ c String.[]) = is_newline c
ends_with_newline (String.◌∷◌ c (String.◌∷◌ d s)) = ends_with_newline (String.◌∷◌ d s)

-- `raw[: raw.rfind("\n") + 1]`, or the empty text where there is no line feed.
up_to_last_newline : String → String
up_to_last_newline String.[] = String.[]
up_to_last_newline (String.◌∷◌ c s) =
    let rest = up_to_last_newline s in
    if is_truthy rest || is_newline c then String.◌∷◌ c rest else String.[]

abbrev with_head : Char → List String → List String
with_head c [] = String.◌∷◌ c String.[] ∷ []
with_head c (line ∷ lines) = String.◌∷◌ c line ∷ lines

-- `safe.split("\n")`
split_lines : String → List String
split_lines String.[] = String.[] ∷ []
split_lines (String.◌∷◌ c s) =
    let rest = split_lines s in if is_newline c then String.[] ∷ rest else with_head c rest

unfoldable pub complete_lines : Option String → List String
unfolding ends_with_newline up_to_last_newline split_lines
complete_lines none = []
complete_lines (some raw) =
    let safe = if ends_with_newline raw then raw else up_to_last_newline raw in
    filter nonblank (split_lines safe)

unfoldable pub read_from_cursor : Option String → ℕ → List String × ℕ
read_from_cursor file cursor_line =
    (drop cursor_line (complete_lines file), length (complete_lines file))

abbrev extend : Char → List String → List String
extend c [] = []
extend c (line ∷ lines) = String.◌∷◌ c line ∷ lines

-- The lines that a line feed ends, by one recursion on the text.
terminated : String → List String
terminated String.[] = []
terminated (String.◌∷◌ c s) =
    let rest = terminated s in if is_newline c then String.[] ∷ rest else extend c rest

abbrev is_filled : List String → Bool
is_filled [] = false
is_filled (x ∷ xs) = true

up_to-filled : (s : String) → is_truthy (up_to_last_newline s) ≡ is_filled (terminated s)
unfolding up_to_last_newline terminated is_truthy
up_to-filled String.[] = refl
up_to-filled (String.◌∷◌ c s) = filled (terminated s) (up_to_last_newline s) (up_to-filled s)
  where
    filled :
        (ls : List String) (u : String)
        → is_truthy u ≡ is_filled ls
        → is_truthy (if is_truthy u || is_newline c then String.◌∷◌ c u else String.[])
          ≡ is_filled (if is_newline c then String.[] ∷ ls else extend c ls)
    filled [] u h = ground arith
    filled (l ∷ ls) u h = ground arith

ends-up_to : (s : String) → ends_with_newline s ≡ true → up_to_last_newline s ≡ s
unfolding ends_with_newline up_to_last_newline is_truthy
ends-up_to String.[] h = refl
ends-up_to (String.◌∷◌ c String.[]) h = ground (arith, h)
ends-up_to (String.◌∷◌ c (String.◌∷◌ d s)) h = rw (ends-up_to (String.◌∷◌ d s) h) refl

split-up_to : (s : String) → split_lines (up_to_last_newline s) ≡ terminated s ++ (String.[] ∷ [])
unfolding up_to_last_newline terminated split_lines is_truthy
split-up_to String.[] = refl
split-up_to (String.◌∷◌ c s) =
    split (terminated s) (up_to_last_newline s) (up_to-filled s) (split-up_to s)
  where
    split :
        (ls : List String) (u : String)
        → is_truthy u ≡ is_filled ls
        → split_lines u ≡ ls ++ (String.[] ∷ [])
        → split_lines (if is_truthy u || is_newline c then String.◌∷◌ c u else String.[])
          ≡ (if is_newline c then String.[] ∷ ls else extend c ls) ++ (String.[] ∷ [])
    split [] u h k = ground arith
    split (l ∷ ls) u h k = ground arith

filter-append :
    (xs ys : List String) → filter nonblank (xs ++ ys) ≡ filter nonblank xs ++ filter nonblank ys
filter-append [] ys = refl
filter-append (x ∷ xs) ys = ground (arith, filter-append xs ys)

blank-end : (xs : List String) → filter nonblank (xs ++ (String.[] ∷ [])) ≡ filter nonblank xs
unfolding nonblank
blank-end [] = refl
blank-end (x ∷ xs) = ground (arith, blank-end xs)

complete_lines-terminated :
    (raw : String) → complete_lines (some raw) ≡ filter nonblank (terminated raw)
unfolding complete_lines
complete_lines-terminated raw = elim (Bool-cases (ends_with_newline raw)) [
  | inl h ↦
      rw h
        (rw (sym (ap split_lines (ends-up_to raw h)), split-up_to raw) (blank-end (terminated raw)))
  | inr h ↦ rw (h, split-up_to raw) (blank-end (terminated raw))
]

terminated-append :
    (s t : String) → (more : List String) × (terminated (str_append s t) ≡ terminated s ++ more)
unfolding terminated
terminated-append String.[] t = (terminated t, rw (append.nil t) refl)
terminated-append (String.◌∷◌ c s) t =
    let (more, e) = terminated-append s t in
    let (more', e') = grown (terminated s) more in (more', rw (append.cons c s t) (rw e e'))
  where
    grown :
        (ls more : List String)
        → (more' : List String) × ((if is_newline c
              then String.[] ∷ (ls ++ more)
              else extend c (ls ++ more))
            ≡ (if is_newline c then String.[] ∷ ls else extend c ls) ++ more')
    grown [] more = elim (Bool-cases (is_newline c)) [
      | inl h ↦ (more, rw h refl)
      | inr h ↦ (extend c more, rw h refl)
    ]
    grown (l ∷ ls) more = (more, ground arith)

-- Whatever is appended to a queue file, be it half a line or the rest of one, the complete lines that
-- were there stay, in their places, and new ones come after them.
pub appending_keeps_lines :
    (raw t : String)
    → (more : List String) × (complete_lines (some (str_append raw t))
        ≡ complete_lines (some raw) ++ more)
appending_keeps_lines raw t =
    let (more, e) = terminated-append raw t in
    (
      filter nonblank more,
      complete_lines-terminated (str_append raw t)
          ∙ (ap (filter nonblank) e
              ∙ (filter-append (terminated raw) more
                  ∙ ap (λ ls. ls ++ filter nonblank more) (sym (complete_lines-terminated raw)))),
    )
