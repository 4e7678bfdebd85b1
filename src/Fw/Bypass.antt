-- ===== src/Fw/Bypass.antt =====
-- The bypass list that AllBypass makes, and the traffic that it keeps out of the capture.
use x_divine_ray.Prelude.{
  Bool, List, Text, [], any_of, arith, false, if◌then◌else◌, refl, text_eq, text_eq_iff, true, ◌++◌,
  ◌||◌, ◌∷◌, ◌≡◌, ap, ◌∙◌, ℕ, codes,
}
use x_divine_ray.Prelude.Trim.{trim, is_space, drop_space}
use x_divine_ray.Fw.{Plan, private_cidrs, dedupe_from, dedupe, all_bypass}
use x_divine_ray.Fw.Packet.{Packet, Hook, prerouting, forward, output, untouched}
use x_divine_ray.Fw.Meaning.{meaning, in_scope}
use x_divine_ray.Fw.Nft.Refines.{nft_fate, nft_fate-meaning}
use x_divine_ray.Fw.Ipt.Refines.{ipt_fate, ipt_fate-meaning}

-- What a written network says, blanks around it aside; a blank one says nothing.
abbrev pub says : (Text → Bool) → Text → Bool
says f x = if text_eq (trim x) [] then false else f (trim x)

module _ (f : Text → Bool) where
  any_of-at :
      (v : Text) (seen : List Text)
      → any_of (λ s. text_eq s v) seen ≡ true
      → f v ≡ true
      → any_of f seen ≡ true
  any_of-at v [] h e = cc
  any_of-at v (s ∷ seen) h e = ground (arith, text_eq_iff s v, any_of-at v seen, ap f)

  dedupe_from-any_of :
      (seen xs : List Text)
      → (any_of f seen || any_of f (dedupe_from seen xs)) ≡ (any_of f seen || any_of (says f) xs)
  unfolding dedupe_from
  dedupe_from-any_of seen [] = refl
  dedupe_from-any_of seen (x ∷ xs) = ground (
    arith,
    any_of-at (trim x) seen,
    dedupe_from-any_of seen xs,
    dedupe_from-any_of (trim x ∷ seen) xs,
  )

  pub dedupe-any_of : (xs : List Text) → any_of f (dedupe xs) ≡ any_of (says f) xs
  unfolding dedupe
  dedupe-any_of xs = dedupe_from-any_of [] xs

pub any_of-++ :
    (f : Text → Bool) (xs ys : List Text) → any_of f (xs ++ ys) ≡ (any_of f xs || any_of f ys)
any_of-++ f [] ys = refl
any_of-++ f (x ∷ xs) ys = ground (arith, any_of-++ f xs ys)

private_says : (f : Text → Bool) → any_of (says f) private_cidrs ≡ any_of f private_cidrs
unfolding codes text_eq trim drop_space is_space
private_says f = refl

-- The networks of the list are the private ones and those that the plan names, and no other.
pub all_bypass-any_of :
    (p : Plan) (f : Text → Bool)
    → any_of f (all_bypass p)
      ≡ (any_of f private_cidrs || (any_of (says f) p.lan_cidrs || any_of (says f) p.bypass_cidrs))
unfolding all_bypass
all_bypass-any_of p f =
    dedupe-any_of f (private_cidrs ++ (p.lan_cidrs ++ p.bypass_cidrs))
    ∙ rw (any_of-++, any_of-++, private_says) refl

left_alone :
    (p : Plan) (k : Packet) (h : Hook) (m : ℕ)
    → any_of k.dst_in (all_bypass p) ≡ true
    → meaning p k h m ≡ untouched m
unfolding meaning in_scope
left_alone p k prerouting m e = ground arith
left_alone p k forward m e = ground arith
left_alone p k output m e = ground arith

-- Both backends leave a packet alone at every hook whose destination is in a private network, in a
-- LAN network of the plan or in a network that the operator bypasses, if the packet is of no
-- transparent socket.
pub bypassed_left :
    (p : Plan) (k : Packet) (h : Hook) (m : ℕ)
    → k.transparent ≡ false
    → (any_of k.dst_in private_cidrs
        || (any_of (says k.dst_in) p.lan_cidrs || any_of (says k.dst_in) p.bypass_cidrs))
      ≡ true
    → (nft_fate p k h m ≡ untouched m) × (ipt_fate p k h m ≡ untouched m)
bypassed_left p k h m t e =
    let left : meaning p k h m ≡ untouched m =
      left_alone p k h m (all_bypass-any_of p k.dst_in ∙ e) in
    (nft_fate-meaning p k h m ∙ left, ipt_fate-meaning p k h m t ∙ left)

own_alone : (p : Plan) (k : Packet) → meaning p k output p.mark ≡ untouched p.mark
unfolding meaning
own_alone p k = ground arith

-- Both backends leave a packet that the router sends under the core's own mark alone, whatever the
-- plan, if it is of no transparent socket.
pub own_left :
    (p : Plan) (k : Packet)
    → k.transparent ≡ false
    → (nft_fate p k output p.mark ≡ untouched p.mark)
      × (ipt_fate p k output p.mark ≡ untouched p.mark)
own_left p k t =
    let left : meaning p k output p.mark ≡ untouched p.mark = own_alone p k in
    (nft_fate-meaning p k output p.mark ∙ left, ipt_fate-meaning p k output p.mark t ∙ left)
