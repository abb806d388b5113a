-- ===== src/Dasio/Reads.antt =====
-- What a scan reads from the text in front of it, and how scans in sequence read texts in sequence.
use cosmid.Base.{
  ℕ, ◌+◌, ◌≡◌, refl, sym, ap, drop-drop, ◌∙◌, arith, some, List, [], ◌∷◌, ◌++◌, append_assoc,
  length, drop, length-append,
}
use cosmid.Dasio.{Input}
use cosmid.Dasio.Scan.{Scan, after, pure, ◌>>=◌}

abbrev pub remaining : Input → List ℕ
remaining i = drop i.cp i.buf

-- In front of `text` and a rest with `Q`, the scan finds `a` and leaves `cp` behind the text.
abbrev pub Reads : {A : Type 0} → (List ℕ → Type 0) → Scan A → List ℕ → A → Type 0
Reads Q m text a =
    (i : Input) (rest : List ℕ)
    → Q rest
    → remaining i ≡ text ++ rest
    → m i ≡ (some a, record i { cp = i.cp + length text })

-- whatever follows
abbrev pub Any : List ℕ → Type 0
Any rest = Unit

-- the end of the input, or a comma
abbrev pub IsEnd : List ℕ → Type 0
IsEnd [] = Unit
IsEnd (c ∷ _) = c ≡ b','

drop-append : (xs ys : List ℕ) → drop (length xs) (xs ++ ys) ≡ ys
drop-append [] ys = refl
drop-append (x ∷ xs) ys = drop-append xs ys

remaining-moved :
    (i : Input) (text rest : List ℕ)
    → remaining i ≡ text ++ rest
    → remaining (record i { cp = i.cp + length text }) ≡ rest
remaining-moved i text rest e =
    sym (drop-drop i.cp (length text) i.buf)
    ∙ ap (λ xs. drop (length text) xs) e
    ∙ drop-append text rest

module _ {A B : Type 0} where
  pub Reads-bind :
      (Q R : List ℕ → Type 0) (m : Scan A) (f : A → Scan B) (text more : List ℕ) (a : A) (b : B)
      → Reads Q m text a
      → Reads R (f a) more b
      → ((rest : List ℕ) → R rest → Q (more ++ rest))
      → Reads R (m >>= f) (text ++ more) b
  Reads-bind Q R m f text more a b first second joins i rest r e =
      let split : remaining i ≡ text ++ (more ++ rest) = e ∙ append_assoc text more rest in
      let run = first i (more ++ rest) (joins rest r) split in
      let moved = second _ rest r (remaining-moved i text (more ++ rest) split) in
      ap (after f) run
      ∙ moved
      ∙ ap (λ k. (some b, record i { cp = k })) (omega (arith, length-append text more))

pub Reads-pure : {A : Type 0} (a : A) → Reads Any (pure a) [] a
Reads-pure a i rest q e = ap (λ k. (some a, record i { cp = k })) (omega arith)

-- The last scan of a chain, whose result is used.
pub Reads-last :
    {A B : Type 0} (Q : List ℕ → Type 0) (m : Scan A) (g : A → B) (text : List ℕ) (a : A)
    → Reads Q m text a
    → Reads Q (m >>= λ v. pure (g v)) text (g a)
Reads-last Q m g text a read i rest q e = ap (after (λ v. pure (g v))) (read i rest q e)
