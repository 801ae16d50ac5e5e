-- ===== src/Sql/Pattern/Extract.antt =====
-- `extractKey` takes a key apart, and what it captured puts it together again.
use pikawire.Prelude.{
  ℕ, ◌≡◌, ◌≢◌, refl, sym, ap, ◌∙◌, Bool, true, false, Option, none, some, List, [], ◌∷◌, ◌++◌,
  append-nil, Bytes, All, length, take, drop, take-append-drop, take-append_left, drop-append_left,
  has_prefix, has_prefix-drop, has_prefix-append, index, index-append, same_iff, Dict, lookup,
  insert, lookup-insert, if◌then◌else◌, arith,
}
use pikawire.Sql.Pattern.{PatternSeg, lit, field, strip, extract_loop, extract_key}

-- The captured columns of a pattern.
abbrev pub fields : List PatternSeg → List Bytes
fields [] = []
fields (lit l ∷ parts) = fields parts
fields (field f ∷ parts) = f ∷ fields parts

-- No column is captured twice.
abbrev pub Distinct : List Bytes → Type 0
Distinct [] = Unit
Distinct (f ∷ fs) = All (λ g. f ≢ g) fs × Distinct fs

-- The key that a pattern describes with the given captures; a missing one is empty.
abbrev pub value_of : Dict Bytes → Bytes → Bytes
value_of out f = elim (lookup f out) [ none ↦ [] | some v ↦ v ]

abbrev pub render : (Bytes → Bytes) → List PatternSeg → Bytes
render v [] = []
render v (lit l ∷ parts) = l ++ render v parts
render v (field f ∷ parts) = v f ++ render v parts

-- The captures of `out'` are those of `out`, but for the columns `fs`.
abbrev Keeps : List Bytes → Dict Bytes → Dict Bytes → Type 0
Keeps fs out out' = (g : Bytes) → All (λ f. g ≢ f) fs → lookup g out' ≡ lookup g out

insert-Keeps :
    (f s : Bytes) (fs : List Bytes) (out : Dict Bytes) → Keeps (f ∷ fs) out (insert f s out)
insert-Keeps f s fs out g (apart, others) = lookup-insert g f s out ∙ ground (arith, same_iff g f)

strip-append : (l s rest : Bytes) → strip l s ≡ some rest → s ≡ l ++ rest
unfolding strip
strip-append l s rest h = by_test (has_prefix s l) refl h
  where
    by_test :
        (b : Bool)
        → has_prefix s l ≡ b
        → (if b then some (drop (length l) s) else none) ≡ some rest
        → s ≡ l ++ rest
    by_test true here h =
        has_prefix-drop s l here
        ∙ ap (λ x. l ++ x) (let e : drop (length l) s ≡ rest = ground (arith, h) in e)
    by_test false here h = absurd (cc h)

strip_own : (l rest : Bytes) → strip l (l ++ rest) ≡ some rest
unfolding strip
strip_own l rest = rw (has_prefix-append l rest, drop-append_left l rest) refl

lookup-insert_self : (f s : Bytes) (out : Dict Bytes) → lookup f (insert f s out) ≡ some s
lookup-insert_self f s out = lookup-insert f f s out ∙ ground (arith, same_iff f f)

-- What a successful run of the loop says of the key and of the captures.
abbrev Reads : List PatternSeg → Bytes → Dict Bytes → Dict Bytes → Type 0
Reads parts s out out' = (s ≡ render (value_of out') parts) × Keeps (fields parts) out out'

extract_loop-Reads :
    (parts : List PatternSeg) (s : Bytes) (out out' : Dict Bytes)
    → Distinct (fields parts)
    → extract_loop parts s out ≡ some out'
    → Reads parts s out out'
unfolding extract_loop
extract_loop-Reads [] [] out out' d h =
    (refl, λ g _. ap (lookup g) (let e : out' ≡ out = ground (arith, h) in e))
extract_loop-Reads [] (c ∷ s) out out' d h = absurd (cc h)
extract_loop-Reads (lit l ∷ parts) s out out' d h =
    by_strip (strip l s) refl (λ rest. extract_loop-Reads parts rest out out' d) h
  where
    by_strip :
        (r : Option Bytes)
        → strip l s ≡ r
        → ((rest : Bytes) → extract_loop parts rest out ≡ some out' → Reads parts rest out out')
        → elim r [ none ↦ none | some rest ↦ extract_loop parts rest out ] ≡ some out'
        → Reads (lit l ∷ parts) s out out'
    by_strip none cut ih h = absurd (cc h)
    by_strip (some rest) cut ih h =
        let (whole, kept) = ih rest h in (strip-append l s rest cut ∙ ap (λ x. l ++ x) whole, kept)
extract_loop-Reads (field f ∷ []) s out out' d h =
    let is : insert f s out ≡ out' = ground (arith, h) in
    (
      sym (append-nil s)
          ∙ ap (λ v. elim v [ none ↦ [] | some v ↦ v ] ++ []) (sym (lookup-insert_self f s out))
          ∙ ap (λ m. value_of m f ++ []) is,
      λ g apart. ap (lookup g) (sym is) ∙ insert-Keeps f s [] out g apart,
    )
extract_loop-Reads (field f ∷ field g ∷ parts) s out out' d h = absurd (cc h)
extract_loop-Reads (field f ∷ lit next ∷ parts) s out out' (apart, d) h =
    by_index (index s next) refl
      (λ i. extract_loop-Reads (lit next ∷ parts) (drop i s) (insert f (take i s) out) out' d) h
  where
    by_index :
        (r : Option ℕ)
        → index s next ≡ r
        → ((i : ℕ)
            → extract_loop (lit next ∷ parts) (drop i s) (insert f (take i s) out) ≡ some out'
            → Reads (lit next ∷ parts) (drop i s) (insert f (take i s) out) out')
        → elim r [
          | none ↦ none
          | some i ↦ extract_loop (lit next ∷ parts) (drop i s) (insert f (take i s) out)
        ]
          ≡ some out'
        → Reads (field f ∷ lit next ∷ parts) s out out'
    by_index none at ih h = absurd (cc h)
    by_index (some i) at ih h =
        let (whole, kept) = ih i h in
        let mine : lookup f out' ≡ some (take i s) =
          kept f apart ∙ lookup-insert_self f (take i s) out in
        (
          sym (take-append-drop i s)
              ∙ ap (λ x. take i s ++ x) whole
              ∙ ap
                  (λ v.
                    elim v [ none ↦ [] | some v ↦ v ] ++ render (value_of out') (lit next ∷ parts))
                  (sym mine),
          λ g (apart_g, others).
              kept g others ∙ insert-Keeps f (take i s) (fields parts) out g (apart_g, others),
        )

-- If a pattern that captures no column twice matches a key, the key is the pattern with what was
-- captured in the place of the captures.
pub extract-render :
    (p : PatternSeg) (parts : List PatternSeg) (key : Bytes) (out : Dict Bytes)
    → Distinct (fields (p ∷ parts))
    → extract_key (p ∷ parts) key ≡ some out
    → key ≡ render (value_of out) (p ∷ parts)
unfolding extract_key
extract-render p parts key out d h = (extract_loop-Reads (p ∷ parts) key [] out d h).0

-- Behind every capture stands a literal whose first byte does not occur in the captured value, or the
-- end of the pattern; no literal is empty.
abbrev pub Separated : (Bytes → Bytes) → List PatternSeg → Type 0
Separated v [] = Unit
Separated v (lit l ∷ parts) = Separated v parts
Separated v (field f ∷ []) = Unit
Separated v (field f ∷ field g ∷ parts) = ⊥
Separated v (field f ∷ lit [] ∷ parts) = ⊥
Separated v (field f ∷ lit (c ∷ l) ∷ parts) = All (λ d. d ≢ c) (v f) × Separated v parts

-- The captures of a key that is built from `v`.
abbrev Recovers : (Bytes → Bytes) → List Bytes → Dict Bytes → Option (Dict Bytes) → Type 0
Recovers v fs out r =
    (out' : Dict Bytes) × (r ≡ some out')
    × All (λ f. lookup f out' ≡ some (v f)) fs
    × Keeps fs out out'

-- The search for the literal stops right behind the value.
capture_step :
    (f value : Bytes) (c : ℕ) (l rest : Bytes) (parts : List PatternSeg) (out : Dict Bytes)
    → All (λ d. d ≢ c) value
    → extract_loop (field f ∷ lit (c ∷ l) ∷ parts) (value ++ ((c ∷ l) ++ rest)) out
      ≡ extract_loop parts rest (insert f value out)
unfolding extract_loop
capture_step f value c l rest parts out clear =
    rw
      (
        extract_loop,
        index-append value l rest c clear,
        drop-append_left value ((c ∷ l) ++ rest),
        strip_own (c ∷ l) rest,
        take-append_left value ((c ∷ l) ++ rest),
      )
      refl

extract_loop-Recovers :
    (v : Bytes → Bytes) (parts : List PatternSeg) (out : Dict Bytes)
    → Distinct (fields parts)
    → Separated v parts
    → Recovers v (fields parts) out (extract_loop parts (render v parts) out)
unfolding extract_loop
extract_loop-Recovers v [] out d sep = (out, refl, tt, λ g _. refl)
extract_loop-Recovers v (lit l ∷ parts) out d sep =
    rw (extract_loop, strip_own l (render v parts)) (extract_loop-Recovers v parts out d sep)
extract_loop-Recovers v (field f ∷ []) out d sep = (
  insert f (v f) out,
  ap (λ s. some (insert f s out)) (append-nil (v f)),
  (lookup-insert_self f (v f) out, tt),
  insert-Keeps f (v f) [] out,
)
extract_loop-Recovers v (field f ∷ field g ∷ parts) out d sep = absurd sep
extract_loop-Recovers v (field f ∷ lit [] ∷ parts) out d sep = absurd sep
extract_loop-Recovers v (field f ∷ lit (c ∷ l) ∷ parts) out (apart, d) (clear, sep) =
    let (out', runs, mine, kept) = extract_loop-Recovers v parts (insert f (v f) out) d sep in
    (
      out',
      capture_step f (v f) c l (render v parts) parts out clear ∙ runs,
      (kept f apart ∙ lookup-insert_self f (v f) out, mine),
      λ g (apart_g, others).
          kept g others ∙ insert-Keeps f (v f) (fields parts) out g (apart_g, others),
    )

-- Conversely the values put into a pattern are captured again, if the pattern captures no column
-- twice and no value has the first byte of the literal behind it.
extract-captures :
    (v : Bytes → Bytes) (p : PatternSeg) (parts : List PatternSeg)
    → Distinct (fields (p ∷ parts))
    → Separated v (p ∷ parts)
    → (out : Dict Bytes) × (extract_key (p ∷ parts) (render v (p ∷ parts)) ≡ some out)
      × All (λ f. lookup f out ≡ some (v f)) (fields (p ∷ parts))
unfolding extract_key
extract-captures v p parts d sep =
    let (out, runs, mine, _) = extract_loop-Recovers v (p ∷ parts) [] d sep in (out, runs, mine)
