-- ===== src/Router/Scan.antt =====
-- What is known of the bytes held back, as long as no frame has been found.
use mathlib.Core.Bool.{false≢true}
use mathlib.Core.Path.{subst}
use nex_shell.Prelude.{
  ℕ, zero, suc, ◌≤◌, ◌≡◌, refl, sym, ◌∙◌, ap, true, false, [], ◌∷◌, ◌++◌, arith, Bytes, length,
  length-append, take, append_assoc, bytes_equal, bytes_equal→eq, Bool-cases, inl, inr,
}
use nex_shell.Router.{magic, begins_magic, Held, release, scan_byte, nothing_held}

-- What is known of a scan that has seen a text.
pub record Seen (text : Bytes) (s : Held) : Type 0 where
  pub whole : s.normal ++ s.pending ≡ text
  pub begins : begins_magic s.pending ≡ true
  pub longest : (u q : Bytes) → u ++ q ≡ text → begins_magic q ≡ true → length q ≤ length s.pending

record Released (normal p : Bytes) (s : Held) : Type 0 where
  whole : s.normal ++ s.pending ≡ normal ++ p
  begins : begins_magic s.pending ≡ true
  longest : (u q : Bytes) → u ++ q ≡ p → begins_magic q ≡ true → length q ≤ length s.pending

tail_eq : {x y : ℕ} {a b : Bytes} → x ∷ a ≡ y ∷ b → a ≡ b
tail_eq e = cc

suffix-length : (u q p : Bytes) → u ++ q ≡ p → length q ≤ length p
suffix-length u q p e = omega (arith, length-append u q, ap length e)

release-Released : (normal p : Bytes) → Released normal p (release normal p)
unfolding release
release-Released normal [] = record {
  whole = refl;
  begins = unfold begins_magic bytes_equal in refl;
  longest = λ u q e b. suffix-length u q [] e;
}
release-Released normal (x ∷ p) = elim (Bool-cases (begins_magic (x ∷ p))) [
  | inl b ↦
      rw b (record { whole = refl; begins = b; longest = λ u q e k. suffix-length u q (x ∷ p) e })
  | inr n ↦
      let r = release-Released (normal ++ x ∷ []) p in
      rw n (record {
        whole = r.whole ∙ append_assoc normal (x ∷ []) p;
        begins = r.begins;
        longest = λ u q e k. shorter u q e k n r;
      })
]
  where
    shorter :
        (u q : Bytes)
        → u ++ q ≡ x ∷ p
        → begins_magic q ≡ true
        → begins_magic (x ∷ p) ≡ false
        → Released (normal ++ x ∷ []) p (release (normal ++ x ∷ []) p)
        → length q ≤ length (release (normal ++ x ∷ []) p).pending
    shorter [] q e k n r = absurd (false≢true (sym n ∙ subst (λ z. begins_magic z ≡ true) e k))
    shorter (y ∷ u) q e k n r = r.longest u q (tail_eq e) k

-- A prefix of what begins the magic bytes begins them too.
begins-shorter : (a : Bytes) (b : ℕ) → begins_magic (a ++ b ∷ []) ≡ true → begins_magic a ≡ true
unfolding begins_magic bytes_equal
begins-shorter [] b h = refl
begins-shorter (x ∷ []) b h = ground arith
begins-shorter (x ∷ y ∷ []) b h = ground arith
begins-shorter (x ∷ y ∷ z ∷ []) b h = ground arith
begins-shorter (x ∷ y ∷ z ∷ w ∷ []) b h = ground arith
begins-shorter (x ∷ y ∷ z ∷ w ∷ v ∷ a) b h = ground arith

-- Two ways to split a text, the second with the shorter end.
align : (u q n p : Bytes) → u ++ q ≡ n ++ p → length q ≤ length p → (v : Bytes) × (v ++ q ≡ p)
align u q [] p e le = (u, e)
align [] q (y ∷ n) p e le = absurd (omega (arith, ap length e, length-append (y ∷ n) p))
align (x ∷ u) q (y ∷ n) p e le = align u q n p (tail_eq e) le

-- the last byte, split off
last : (x : ℕ) (q : Bytes) → (a : Bytes) × ((c : ℕ) × (x ∷ q ≡ a ++ c ∷ []))
last x [] = ([], (x, refl))
last x (y ∷ q) = let (a, (c, e)) = last y q in (x ∷ a, (c, ap (◌∷◌ x) e))

pub snoc_eq : (a b : Bytes) (c d : ℕ) → a ++ c ∷ [] ≡ b ++ d ∷ [] → (a ≡ b) × (c ≡ d)
snoc_eq [] [] c d e = (refl, cc)
snoc_eq [] (y ∷ b) c d e = absurd (omega (arith, ap length e, length-append b (d ∷ [])))
snoc_eq (x ∷ a) [] c d e = absurd (omega (arith, ap length e, length-append a (c ∷ [])))
snoc_eq (x ∷ a) (y ∷ b) c d e =
    let (s, t) = snoc_eq a b c d (tail_eq e) in let h : x ≡ y = cc in (cc, t)

scan_byte-longest :
    (text : Bytes) (b : ℕ) (s : Held)
    → Seen text s
    → (u q : Bytes) → u ++ q ≡ text ++ b ∷ []
    → begins_magic q ≡ true
    → length q ≤ length (scan_byte b s).pending
unfolding scan_byte
scan_byte-longest text b s k u [] e h = omega arith
scan_byte-longest text b s k u (x ∷ q) e h =
    let r = release-Released s.normal (s.pending ++ b ∷ []) in
    let (a, (c, split)) = last x q in
    let (front, same) =
      snoc_eq (u ++ a) text c b (append_assoc u a (c ∷ []) ∙ ap (λ z. u ++ z) (sym split) ∙ e) in
    let short =
      k.longest u a front (begins-shorter a c (subst (λ z. begins_magic z ≡ true) split h)) in
    let (v, ends) = align u a s.normal s.pending (front ∙ sym k.whole) short in
    let all : v ++ (x ∷ q) ≡ s.pending ++ b ∷ [] =
      ap (λ z. v ++ z) split ∙ sym (append_assoc v a (c ∷ [])) ∙ rw (ends, same) refl in
    r.longest v (x ∷ q) all h

pub scan_byte-Seen :
    (text : Bytes) (b : ℕ) (s : Held) → Seen text s → Seen (text ++ b ∷ []) (scan_byte b s)
scan_byte-Seen text b s k =
    let r = release-Released s.normal (s.pending ++ b ∷ []) in
    record {
      whole =
          unfold scan_byte in
          (r.whole
            ∙ sym (append_assoc s.normal s.pending (b ∷ []))
            ∙ ap (λ z. z ++ b ∷ []) k.whole);
      begins = unfold scan_byte in r.begins;
      longest = scan_byte-longest text b s k;
    }

pub start-Seen : Seen [] nothing_held
start-Seen = record {
  whole = refl;
  begins = unfold begins_magic bytes_equal in refl;
  longest = λ u q e h. suffix-length u q [] e;
}

take_nil : (n : ℕ) → take {A = ℕ} n [] ≡ []
take_nil zero = refl
take_nil (suc n) = refl

pub begins-length : (p : Bytes) → begins_magic p ≡ true → 4 ≤ length p → p ≡ magic
unfolding begins_magic
begins-length [] h le = absurd (omega arith)
begins-length (x ∷ []) h le = absurd (omega arith)
begins-length (x ∷ y ∷ []) h le = absurd (omega arith)
begins-length (x ∷ y ∷ z ∷ []) h le = absurd (omega arith)
begins-length (x ∷ y ∷ z ∷ w ∷ p) h le =
    sym (bytes_equal→eq magic (x ∷ y ∷ z ∷ w ∷ p) (rw (take_nil (length p)) at h))
