-- ===== src/Config/Lines.antt =====
-- crates/tith-config/src/lib.rs: the lines and fields of a configuration file. A text is the list of
-- its code points; the texts of the errors are constructors.
mod Runs
use tith.Base.{
  ℕ, ◌+◌, ◌≡◌, ◌⊎◌, refl, sym, subst, inl, inr, arith, Bool, true, false, Bool-cases, not, ◌&&◌,
  ◌||◌, ◌==◌, if◌then◌else◌, List, [], ◌∷◌, ◌++◌, any, All, Result, ok, err, ◌>>=◌, ◌>>◌, ensure,
  >>=-eq-ok, ok-injective,
}
use tith.Wire.Address.{is_control, head_is, last_is}

pub data Fault : Type 0 where
  missing_final_lf prohibited_control : Fault

pub record ConfigError : Type 0 where
  pub file : List ℕ
  pub number : ℕ
  pub message : Fault

pub record Line : Type 0 where
  pub number : ℕ
  pub text : List ℕ

abbrev pub is_blank : List ℕ → Bool
is_blank [] = true
is_blank (c ∷ cs) = false

abbrev pub separator : ℕ → Bool
separator c = c == 0x20 || c == 0x9

-- `str::split_terminator('\n')`.
unfoldable pub split_terminator : List ℕ → List (List ℕ)
split_terminator [] = []
split_terminator (c ∷ cs) =
    let rest = split_terminator cs in
    if c == 0xa
    then [] ∷ rest
    else elim rest [ [] ↦ (c ∷ []) ∷ [] | piece ∷ pieces ↦ (c ∷ piece) ∷ pieces ]

unfoldable pub trim_start : List ℕ → List ℕ
trim_start [] = []
trim_start (c ∷ cs) = let rest = trim_start cs in if separator c then rest else c ∷ cs

unfoldable pub trim_end : List ℕ → List ℕ
trim_end [] = []
trim_end (c ∷ cs) = let rest = trim_end cs in if is_blank rest && separator c then [] else c ∷ rest

abbrev pub count : ℕ → List ℕ → ℕ
count c [] = 0
count c (d ∷ ds) = let rest = count c ds in if d == c then rest + 1 else rest

unfoldable pub prohibited_in_line : ℕ → Bool
prohibited_in_line c = (is_control c && not (c == 0x9)) || c == 0x7f

-- The loop over the pieces, from a line number on.
unfoldable pub lines_from : List ℕ → ℕ → List (List ℕ) → Result ConfigError (List Line)
lines_from file number [] = ok []
lines_from file number (raw ∷ raws) =
    let rest = lines_from file (number + 1) raws in
    let text = trim_end (trim_start raw) in
    if any prohibited_in_line raw
    then err (record { file = file; number = number; message = prohibited_control })
    else if not (is_blank text) && not (head_is (λ c. c == b';') text)
    then (rest >>= λ output. ok (record { number = number; text = text } ∷ output))
    else rest

unfoldable pub lines : List ℕ → List ℕ → Result ConfigError (List Line)
unfolding lines_from
lines file input = do
  ensure (is_blank input || last_is (λ c. c == 0xa) input)
      (record { file = file; number = count 0xa input + 1; message = missing_final_lf })
  lines_from file 1 (split_terminator input)

-- `split` at the separators, and the empty pieces left out.
unfoldable pub fields_of : List ℕ → List ℕ → List (List ℕ)
fields_of field [] = if is_blank field then [] else field ∷ []
fields_of field (c ∷ cs) =
    let same = fields_of (field ++ (c ∷ [])) cs in
    let after = fields_of [] cs in
    if separator c then (if is_blank field then after else field ∷ after) else same

unfoldable pub fields : Line → List (List ℕ)
unfolding fields_of
fields line = fields_of [] line.text

unfoldable pub valid_name : List ℕ → Bool
valid_name value =
    not (is_blank value)
    && (not (any (λ c. separator c || c == b'@') value) && not (any is_control value))

trim_start-head : (cs : List ℕ) → head_is separator (trim_start cs) ≡ false
unfolding trim_start
trim_start-head [] = refl
trim_start-head (c ∷ cs) = ground (arith, trim_start-head cs)

trim_end-head :
    (p : ℕ → Bool) (cs : List ℕ) → head_is p cs ≡ false → head_is p (trim_end cs) ≡ false
unfolding trim_end
trim_end-head p [] h = refl
trim_end-head p (c ∷ cs) h = ground (arith, h)

last_cons :
    (p : ℕ → Bool) (c : ℕ) (cs : List ℕ)
    → (is_blank cs && p c) ≡ false
    → last_is p cs ≡ false
    → last_is p (c ∷ cs) ≡ false
last_cons p c [] h k = h
last_cons p c (d ∷ ds) h k = k

trim_end-last : (cs : List ℕ) → last_is separator (trim_end cs) ≡ false
unfolding trim_end
trim_end-last [] = refl
trim_end-last (c ∷ cs) = elim (Bool-cases (is_blank (trim_end cs) && separator c)) [
  | inl e ↦ rw (e, trim_end)
  | inr e ↦ rw (e, trim_end) (last_cons separator c (trim_end cs) e (trim_end-last cs))
]

-- A text that is neither blank nor a comment, without a separator at either end.
pub record IsSignificant (line : Line) : Type 0 where
  pub filled : is_blank line.text ≡ false
  pub meant : head_is (λ c. c == b';') line.text ≡ false
  pub opening : head_is separator line.text ≡ false
  pub closing : last_is separator line.text ≡ false

trimmed-IsSignificant :
    (number : ℕ) (raw : List ℕ)
    → (not (is_blank (trim_end (trim_start raw)))
        && not (head_is (λ c. c == b';') (trim_end (trim_start raw))))
      ≡ true
    → IsSignificant (record { number = number; text = trim_end (trim_start raw) })
trimmed-IsSignificant number raw h = record {
  filled = ground (arith, h);
  meant = ground (arith, h);
  opening = trim_end-head separator (trim_start raw) (trim_start-head raw);
  closing = trim_end-last (trim_start raw);
}

if_err-eq-ok :
    {E A : Type 0} (b : Bool) (e : E) (r : Result E A) {a : A}
    → (if b then err e else r) ≡ ok a
    → r ≡ ok a
if_err-eq-ok true e r h = cc
if_err-eq-ok false e r h = h

if-eq-ok :
    {E A : Type 0} (b : Bool) (r s : Result E A) {a : A}
    → (if b then r else s) ≡ ok a
    → ((b ≡ true) × (r ≡ ok a)) ⊎ ((b ≡ false) × (s ≡ ok a))
if-eq-ok true r s h = inl (refl, h)
if-eq-ok false r s h = inr (refl, h)

lines_from-IsSignificant :
    (file : List ℕ) (number : ℕ) (raws : List (List ℕ)) {output : List Line}
    → lines_from file number raws ≡ ok output
    → All IsSignificant output
unfolding lines_from
lines_from-IsSignificant file number [] h = subst (All IsSignificant) (ok-injective h) tt
lines_from-IsSignificant file number (raw ∷ raws) h =
    let h1 = if_err-eq-ok (any prohibited_in_line raw) _ _ h in
    let meant =
      not (is_blank (trim_end (trim_start raw)))
      && not (head_is (λ c. c == b';') (trim_end (trim_start raw))) in
    elim (if-eq-ok meant _ _ h1) [
      | inl (e, h2) ↦
          let (rest, later, h3) = >>=-eq-ok (lines_from file (number + 1) raws) _ h2 in
          subst (All IsSignificant) (ok-injective h3) (
            trimmed-IsSignificant number raw e,
            lines_from-IsSignificant file (number + 1) raws later,
          )
      | inr (e, h2) ↦ lines_from-IsSignificant file (number + 1) raws h2
    ]

-- Every line that `lines` returns is neither blank nor a comment, and has no separator at either end.
pub lines-IsSignificant :
    (file input : List ℕ) (output : List Line)
    → lines file input ≡ ok output
    → All IsSignificant output
unfolding lines
lines-IsSignificant file input output h =
    let (u, ended, h1) =
      >>=-eq-ok (ensure (is_blank input || last_is (λ c. c == 0xa) input) _) _ h in
    lines_from-IsSignificant file 1 (split_terminator input) h1
