-- ===== src/Hardware/Writer/Names.antt =====
-- The names of the output files over the breaks, and the file that GetLastIFFilename names.
use mzntapp_cpp.Base.{
  ℕ, zero, suc, ◌-◌, ◌%◌, ◌^◌, ◌≡◌, refl, Bool, true, false, arith, ◌==◌, if◌then◌else◌, List, [],
  ◌∷◌, ◌++◌, Option, none, some, Text, codes, to_string, length, length-append, get_elem?, subst,
  ap, ◌∙◌, append_assoc,
}
use mzntapp_cpp.Hardware.Writer.{
  Config, Writer, start, break_files, write_block, check_limits, maybe_break, OutFile, close_from,
  round, run, last_if_filename,
}

-- The base name of the files after `n` breaks: the given name, then that name with a number.
abbrev pub name_after : Text → ℕ → Text
name_after base zero = base
name_after base (suc n) = base ++ codes "." ++ to_string (suc n % 2 ^ 32)

abbrev pub names_before : Text → ℕ → List Text
names_before base zero = []
names_before base (suc n) = names_before base n ++ name_after base n ∷ []

pub length-names_before : (base : Text) (n : ℕ) → length (names_before base n) ≡ n
length-names_before base zero = refl
length-names_before base (suc n) = omega (
  arith,
  length-append (names_before base n) (name_after base n ∷ []),
  length-names_before base n,
)

-- After `n` breaks.
pub record Named (c : Config) (n : ℕ) (w : Writer) : Type 0 where
  pub current : w.curr_name ≡ name_after c.base_name n
  pub history : w.history ≡ names_before c.base_name n
  pub number : w.file_no ≡ suc n % 2 ^ 32

break_if-Named :
    (c : Config) (n : ℕ) (w : Writer) (b : Bool)
    → Named c n w
    → (m : ℕ) × Named c m (if b then break_files c w else w)
unfolding break_files
break_if-Named c n w true v = (
  suc n,
  record {
    current = ap (λ k. c.base_name ++ codes "." ++ to_string k) v.number;
    history = ground (arith, v.current, v.history);
    number = omega (arith, v.number);
  },
)
break_if-Named c n w false v = (n, v)

maybe_break-Named :
    (c : Config) (n : ℕ) (w : Writer) → Named c n w → (m : ℕ) × Named c m (maybe_break c w)
unfolding maybe_break
maybe_break-Named c n w v = break_if-Named c n w w.break_signal v

close_from-Named :
    (c : Config) (n : ℕ) (w : Writer) (fs : List OutFile)
    → Named c n w
    → Named c n (close_from fs w)
close_from-Named c n w [] v = v
close_from-Named c n w (f ∷ fs) v = record {
  current = v.current;
  history = v.history;
  number = v.number;
}

pub run-Named :
    (c : Config) (rs : List (Bool × Option ℕ)) (n : ℕ) (w : Writer)
    → Named c n w
    → (m : ℕ) × Named c m (run c rs w)
unfolding run round check_limits write_block
run-Named c [] n w v = (n, v)
run-Named c ((on, none) ∷ rs) n w v =
    let (m, v') = maybe_break-Named c n w v in
    (m, close_from-Named c m _ (maybe_break c w).files v')
run-Named c ((true, some p) ∷ rs) n w v =
    let (m, v') = maybe_break-Named c n w v in
    run-Named c rs m _ (record { current = v'.current; history = v'.history; number = v'.number })
run-Named c ((false, some p) ∷ rs) n w v =
    let (m, v') = maybe_break-Named c n w v in
    run-Named c rs m _ (record { current = v'.current; history = v'.history; number = v'.number })

get_elem?-append : (xs ys : List Text) (y : Text) → get_elem? (xs ++ y ∷ ys) (length xs) ≡ some y
get_elem?-append [] ys y = refl
get_elem?-append (x ∷ xs) ys y = get_elem?-append xs ys y

-- The name before the last one.
get_elem?-names :
    (base : Text) (n : ℕ) → get_elem? (names_before base (suc (suc n))) n ≡ some (name_after base n)
get_elem?-names base n =
    let found =
      get_elem?-append (names_before base n) (name_after base (suc n) ∷ []) (name_after base n) in
    rw append_assoc (
      subst
        (λ k.
          get_elem? (names_before base n ++ (name_after base n ∷ name_after base (suc n) ∷ [])) k
          ≡ some (name_after base n))
        (length-names_before base n) found)

last_if_filename_two :
    (curr : Text) (h : List Text) (x : Text) (n : ℕ)
    → length h ≡ suc (suc n)
    → get_elem? h n ≡ some x
    → last_if_filename curr h ≡ some x
unfolding last_if_filename
last_if_filename_two curr h x n len got =
    let index : n ≡ length h - 2 = omega (arith, len) in
    ground (arith, subst (λ k. get_elem? h k ≡ some x) index got)

tests :
    (n : ℕ) (base : Text) (o : Option Text)
    → o ≡ (if suc (suc n) == 0 then some base else if suc (suc n) == 1 then none else o)
tests n base o = ground arith

pub last_if_filename-names :
    (base : Text) (n : ℕ)
    → last_if_filename (name_after base n) (names_before base n)
      ≡ (if n == 0 then some base else if n == 1 then none else some (name_after base (n - 2)))
unfolding last_if_filename
last_if_filename-names base zero = refl
last_if_filename-names base (suc zero) = refl
last_if_filename-names base (suc (suc n)) =
    let index : suc (suc n) - 2 ≡ n = omega arith in
    let found : last_if_filename (name_after base (suc (suc n))) (names_before base (suc (suc n)))
        ≡ some (name_after base n) =
      last_if_filename_two _ (names_before base (suc (suc n))) (name_after base n) n
        (length-names_before base (suc (suc n))) (get_elem?-names base n) in
    rw index (found ∙ tests n base (some (name_after base n)))

-- After `n` breaks the history holds the names of the `n` finished files in order. Yet for the last
-- finished file `last_if_filename` names the one before it, from the second break on; after one
-- break it reads out of bounds, and before the first it names the current file.
pub last_if_filename-run :
    (c : Config) (rs : List (Bool × Option ℕ))
    → let w = run c rs (start c) in
      (n : ℕ) × (w.history ≡ names_before c.base_name n)
      × (w.curr_name ≡ name_after c.base_name n)
      × (last_if_filename w.curr_name w.history ≡ (
          if n == 0
          then some c.base_name
          else if n == 1
          then none
          else some (name_after c.base_name (n - 2))))
unfolding start
last_if_filename-run c rs =
    let (n, v) =
      run-Named c rs 0 (start c) (record { current = refl; history = refl; number = refl }) in
    (n, v.history, v.current, rw (v.history, v.current) (last_if_filename-names c.base_name n))
