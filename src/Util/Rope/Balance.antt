-- ===== src/Util/Rope/Balance.antt =====
-- Balancing moves nodes and keeps the text.
use trunk.Prelude.{
  ℕ, ◌+◌, ◌≡◌, refl, ap, ◌∙◌, sym, List, ◌++◌, ltb, if◌then◌else◌, true, false, append_assoc,
  append-nil, Bool, arith,
}
use trunk.Util.Rope.{Rep, nil, node, rotate_left, rotate_right, settle_left, settle_right}
use trunk.Util.Rope.{balance_left, balance_right, merge}
use trunk.Util.Rope.Content.{content, IsWf, nodes, length-content}

-- The same text in as many nodes.
pub record Rearranged (t u : Rep) : Type 0 where
  pub wf : IsWf t → IsWf u
  pub same : content u ≡ content t
  pub count : nodes u ≡ nodes t

pub Rearranged-refl : (t : Rep) → Rearranged t t
Rearranged-refl t = record { wf = λ w. w; same = refl; count = refl }

Rearranged-trans : (t u v : Rep) → Rearranged t u → Rearranged u v → Rearranged t v
Rearranged-trans t u v a b = record {
  wf = λ w. b.wf (a.wf w);
  same = b.same ∙ a.same;
  count = b.count ∙ a.count;
}

rotate_left-Rearranged : (t : Rep) → Rearranged t (rotate_left t)
unfolding rotate_left
rotate_left-Rearranged nil = Rearranged-refl nil
rotate_left-Rearranged (node l lsize p buf nil) = Rearranged-refl (node l lsize p buf nil)
rotate_left-Rearranged (node l lsize p buf (node pl plsize pp pbuf pr)) = record {
  wf = λ (wl, el, bl, (wpl, epl, bpl, wpr)).
      ((wl, el, bl, wpl), omega (arith, length-content l buf pl), bpl, wpr);
  same = simp append_assoc;
  count = omega arith;
}

rotate_right-Rearranged : (t : Rep) → Rearranged t (rotate_right t)
unfolding rotate_right
rotate_right-Rearranged nil = Rearranged-refl nil
rotate_right-Rearranged (node nil lsize p buf r) = Rearranged-refl (node nil lsize p buf r)
rotate_right-Rearranged (node (node pl plsize pp pbuf pr) lsize p buf r) = record {
  wf = λ ((wpl, epl, bpl, wpr), e, b, wr).
      (wpl, epl, bpl, (wpr, omega (arith, length-content pl pbuf pr), b, wr));
  same = simp append_assoc;
  count = omega arith;
}

if-Rearranged :
    (b : Bool) (t u v : Rep) → Rearranged t u → Rearranged t v → Rearranged t (if b then u else v)
if-Rearranged true t u v hu hv = hu
if-Rearranged false t u v hu hv = hv

settle_left-Rearranged : (t : Rep) → Rearranged t (settle_left t)
unfolding settle_left
settle_left-Rearranged nil = Rearranged-refl nil
settle_left-Rearranged (node nil lsize p buf r) = Rearranged-refl (node nil lsize p buf r)
settle_left-Rearranged (node (node pl plsize pp pbuf pr) lsize p buf r) =
    if-Rearranged (ltb p pp) _ _ _
      (rotate_right-Rearranged (node (node pl plsize pp pbuf pr) lsize p buf r)) (Rearranged-refl _)

settle_right-Rearranged : (t : Rep) → Rearranged t (settle_right t)
unfolding settle_right
settle_right-Rearranged nil = Rearranged-refl nil
settle_right-Rearranged (node l lsize p buf nil) = Rearranged-refl (node l lsize p buf nil)
settle_right-Rearranged (node l lsize p buf (node pl plsize pp pbuf pr)) =
    if-Rearranged (ltb p pp) _ _ _
      (rotate_left-Rearranged (node l lsize p buf (node pl plsize pp pbuf pr))) (Rearranged-refl _)

-- A child may be rearranged.
module _ (l : Rep) (lsize p : ℕ) (buf : List ℕ) (r : Rep) where
  left-Rearranged :
      (l' : Rep) → Rearranged l l' → Rearranged (node l lsize p buf r) (node l' lsize p buf r)
  left-Rearranged l' a = record {
    wf = λ (wl, e, b, wr). (a.wf wl, rw a.same e, b, wr);
    same = ap (λ t. t ++ (buf ++ content r)) a.same;
    count = omega (arith, a.count);
  }

  right-Rearranged :
      (r' : Rep) → Rearranged r r' → Rearranged (node l lsize p buf r) (node l lsize p buf r')
  right-Rearranged r' a = record {
    wf = λ (wl, e, b, wr). (wl, e, b, a.wf wr);
    same = ap (λ t. content l ++ (buf ++ t)) a.same;
    count = omega (arith, a.count);
  }

pub balance_left-Rearranged : (t : Rep) → Rearranged t (balance_left t)
unfolding balance_left
balance_left-Rearranged nil = Rearranged-refl nil
balance_left-Rearranged (node l lsize p buf r) =
    Rearranged-trans _ _ _
      (left-Rearranged l lsize p buf r (balance_left l) (balance_left-Rearranged l))
      (settle_left-Rearranged (node (balance_left l) lsize p buf r))

pub balance_right-Rearranged : (t : Rep) → Rearranged t (balance_right t)
unfolding balance_right
balance_right-Rearranged nil = Rearranged-refl nil
balance_right-Rearranged (node l lsize p buf r) =
    Rearranged-trans _ _ _
      (right-Rearranged l lsize p buf r (balance_right r) (balance_right-Rearranged r))
      (settle_right-Rearranged (node l lsize p buf (balance_right r)))

-- `merge` joins two trees: the texts one after the other, in as many nodes.
pub record Joined (t u v : Rep) : Type 0 where
  pub wf : IsWf t → IsWf u → IsWf v
  pub same : content v ≡ content t ++ content u
  pub count : nodes v ≡ nodes t + nodes u

node-Joined :
    (l : Rep) (lsize p : ℕ) (buf : List ℕ) (r u m : Rep)
    → Joined r u m
    → Joined (node l lsize p buf r) u (balance_right (node l lsize p buf m))
node-Joined l lsize p buf r u m ih = record {
  wf = λ (wl, e, b, wr) wu. bal.wf (wl, e, b, ih.wf wr wu);
  same = bal.same ∙ ap (λ t. content l ++ (buf ++ t)) ih.same ∙ simp append_assoc;
  count = omega (arith, bal.count, ih.count);
}
  where
    bal : Rearranged (node l lsize p buf m) (balance_right (node l lsize p buf m))
    bal = balance_right-Rearranged (node l lsize p buf m)

pub merge-Joined : (t u : Rep) → Joined t u (merge t u)
unfolding merge
merge-Joined nil u = record { wf = λ a b. b; same = refl; count = omega arith }
merge-Joined (node l lsize p buf r) nil = record {
  wf = λ a b. a;
  same = sym (append-nil _);
  count = omega arith;
}
merge-Joined (node l lsize p buf r) (node rl rlsize rp rbuf rr) =
    node-Joined l lsize p buf r _ _ (merge-Joined r (node rl rlsize rp rbuf rr))
