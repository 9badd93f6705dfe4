-- ===== src/Mime/Order.antt =====
-- `strcasecmp` orders texts up to case.
use Prim.Native.Nat.{Ordering}
use darkhttpd.Common.{◌≡◌, refl, arith, [], ◌∷◌, Bytes}
use darkhttpd.Cstring.{strcasecmp}

abbrev pub flip : Ordering → Ordering
flip Ordering.lt = Ordering.gt
flip Ordering.eq = Ordering.eq
flip Ordering.gt = Ordering.lt

pub strcasecmp-flip : (a b : Bytes) → strcasecmp b a ≡ flip (strcasecmp a b)
unfolding strcasecmp
strcasecmp-flip [] [] = refl
strcasecmp-flip [] (y ∷ b) = refl
strcasecmp-flip (x ∷ a) [] = refl
strcasecmp-flip (x ∷ a) (y ∷ b) = ground (arith, strcasecmp-flip a b)

pub strcasecmp_trans :
    (a b c : Bytes)
    → strcasecmp a b ≡ Ordering.lt
    → strcasecmp b c ≡ Ordering.lt
    → strcasecmp a c ≡ Ordering.lt
unfolding strcasecmp
strcasecmp_trans [] [] c h k = cc
strcasecmp_trans [] (y ∷ b) [] h k = cc
strcasecmp_trans [] (y ∷ b) (z ∷ c) h k = refl
strcasecmp_trans (x ∷ a) [] c h k = cc
strcasecmp_trans (x ∷ a) (y ∷ b) [] h k = cc
strcasecmp_trans (x ∷ a) (y ∷ b) (z ∷ c) h k = ground (arith, strcasecmp_trans a b c)

pub strcasecmp-eq : (a b c : Bytes) → strcasecmp a b ≡ Ordering.eq → strcasecmp a c ≡ strcasecmp b c
unfolding strcasecmp
strcasecmp-eq [] [] c h = refl
strcasecmp-eq [] (y ∷ b) c h = cc
strcasecmp-eq (x ∷ a) [] c h = cc
strcasecmp-eq (x ∷ a) (y ∷ b) [] h = refl
strcasecmp-eq (x ∷ a) (y ∷ b) (z ∷ c) h = ground (arith, strcasecmp-eq a b c)
