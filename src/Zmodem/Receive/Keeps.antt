-- ===== src/Zmodem/Receive/Keeps.antt =====
-- How the directory behind a session may differ from the one before: what an entry held is still the beginning of
-- what it holds, and entries under names that are not safe are as they were.
use mathlib.Core.Bool.{false≢true}
use nex_shell.Prelude.{
  ◌≡◌, refl, sym, ◌∙◌, ap, true, false, Option, none, some, [], ◌++◌, Bool-cases, inl, inr, Bytes,
  append_assoc, append-nil, bytes_equal, bytes_equal→eq,
}
use nex_shell.Zmodem.Disk.{Node, Disk, lookup, store, lookup-store_self, lookup-store_ne}
use nex_shell.Zmodem.Files.{safe_name}

abbrev pub IsPrefix : Bytes → Bytes → Type 0
IsPrefix a b = (rest : Bytes) × (a ++ rest ≡ b)

IsPrefix-refl : (a : Bytes) → IsPrefix a a
IsPrefix-refl a = ([], append-nil a)

IsPrefix-trans : (a b c : Bytes) → IsPrefix a b → IsPrefix b c → IsPrefix a c
IsPrefix-trans a b c (r, e) (s, f) = (r ++ s, sym (append_assoc a r s) ∙ ap (λ x. x ++ s) e ∙ f)

-- A stored file lives on: a node of the same kind whose content begins with the old content.
abbrev pub Extends : Node → Option Node → Type 0
Extends old none = ⊥
Extends old (some new) = (new.regular ≡ old.regular) × IsPrefix old.content new.content

-- the directory `d`, compared with the directory `d₀` before the session
pub record Kept (before after : Disk) : Type 0 where
  pub extends :
      (name : Bytes) (node : Node)
      → lookup name before ≡ some node
      → Extends node (lookup name after)
  pub elsewhere : (name : Bytes) → safe_name name ≡ false → lookup name after ≡ lookup name before

pub Kept-refl : (d : Disk) → Kept d d
Kept-refl d = record {
  extends = λ name node e. rw e (refl, IsPrefix-refl node.content);
  elsewhere = λ name h. refl;
}

Extends-trans :
    (old mid new : Node) → Extends old (some mid) → Extends mid (some new) → Extends old (some new)
Extends-trans old mid new (r, p) (r', p') =
    (r' ∙ r, IsPrefix-trans old.content mid.content new.content p p')

Extends-through :
    (old : Node) (now : Option Node) (new : Node)
    → ((mid : Node) → now ≡ some mid → Extends mid (some new))
    → Extends old now
    → Extends old (some new)
Extends-through old none new lives h = absurd h
Extends-through old (some mid) new lives h = Extends-trans old mid new h (lives mid refl)

-- Storing a node under a safe name keeps the rest, if what was stored there lives on in the node.
pub Kept-store :
    (before after : Disk) (name : Bytes) (node : Node)
    → safe_name name ≡ true
    → ((old : Node) → lookup name after ≡ some old → Extends old (some node))
    → Kept before after
    → Kept before (store name node after)
Kept-store before after name node safe lives k = record {
  extends = λ other old e. elim (Bool-cases (bytes_equal name other)) [
    | inl same ↦
        let eq = bytes_equal→eq name other same in
        rw (← eq, lookup-store_self)
          (Extends-through old (lookup name after) node lives
            (rw (← eq) at (k.extends other old e)))
    | inr differs ↦ rw (lookup-store_ne name other node after differs) (k.extends other old e)
  ];
  elsewhere = λ other unsafe. elim (Bool-cases (bytes_equal name other)) [
    | inl same ↦
        let eq = bytes_equal→eq name other same in absurd (false≢true (sym (rw eq unsafe) ∙ safe))
    | inr differs ↦ lookup-store_ne name other node after differs ∙ k.elsewhere other unsafe
  ];
}
