-- ===== src/User/Env/Names.antt =====
-- The entries of a name: an entry has one name, and a new entry has its own.
use exyde.Common.{ℕ, suc, ◌+◌, ◌≡◌, refl, ap, ◌∙◌, true, false, List, [], ◌∷◌, length, drop, arith}
use exyde.User.String.Search.Spans.{member}
use exyde.User.Ramfs.Dir.{same_name}
use exyde.User.Env.{equals_sign, names, entry_of}

-- Names without an equals sign that the same entry has are the same.
pub names_unique :
    (e name other : List ℕ)
    → member equals_sign name ≡ false
    → member equals_sign other ≡ false
    → names e name ≡ true
    → names e other ≡ true
    → same_name other name ≡ true
names_unique e [] [] p q x y = refl
names_unique [] [] (o ∷ os) p q x y = ground arith
names_unique (c ∷ e) [] (o ∷ os) p q x y = ground arith
names_unique [] (n ∷ ns) other p q x y = ground arith
names_unique (c ∷ e) (n ∷ ns) [] p q x y = ground arith
names_unique (c ∷ e) (n ∷ ns) (o ∷ os) p q x y =
    ground (arith, names_unique e ns os (ground arith) (ground arith) (ground arith) (ground arith))

pub names-entry_of : (name value : List ℕ) → names (entry_of name value) name ≡ true
names-entry_of [] value = refl
names-entry_of (n ∷ ns) value = ground (arith, names-entry_of ns value)

pub drop-entry_of : (name value : List ℕ) → drop (length name + 1) (entry_of name value) ≡ value
drop-entry_of [] value = refl
drop-entry_of (n ∷ ns) value =
    let e : suc (length ns) + 1 ≡ suc (length ns + 1) = omega arith in
    ap (λ k. drop k (entry_of (n ∷ ns) value)) e ∙ drop-entry_of ns value
