-- ===== src/Registry/Setup/Names.antt =====
-- The names under which messages have routes and subscriptions in the tables of src/ipc.c, and what
-- `detect_id_collision` keeps apart.
use actor_framework_cxx.Prelude.{
  ℕ, ◌≡◌, ◌⊎◌, inl, inr, refl, sym, ap, subst, ◌∙◌, true, false, List, [], ◌∷◌, ◌++◌, Name, arith,
}
use actor_framework_cxx.State.{Route, Config, Core}
use actor_framework_cxx.Registry.{same_name, has_collision}
use actor_framework_cxx.Registry.Tables.{Agree}
use actor_framework_cxx.Registry.Valid.{RegistryValid}

-- The id stands in the table under the name.
abbrev pub Named : ℕ → Name → List Route → Type 0
Named id name [] = ⊥
Named id name (r ∷ t) = ((r.msg_id ≡ id) × (r.msg_name ≡ name)) ⊎ Named id name t

-- A route or a subscription.
abbrev pub Routed : ℕ → Name → (routes subscriptions : List Route) → Type 0
Routed id name rs ss = Named id name rs ⊎ Named id name ss

-- The tables only grow.
abbrev pub Grown : (rs ss rs' ss' : List Route) → Type 0
Grown rs ss rs' ss' = (id : ℕ) (n : Name) → Routed id n rs ss → Routed id n rs' ss'

pub Named-kept :
    (id : ℕ) (name : Name) (t : List Route) (r : Route)
    → Named id name t
    → Named id name (t ++ (r ∷ []))
Named-kept id name [] r n = elim n [ ]
Named-kept id name (x ∷ t) r (inl e) = inl e
Named-kept id name (x ∷ t) r (inr n) = inr (Named-kept id name t r n)

pub Named-added :
    (id : ℕ) (name : Name) (t : List Route) (r : Route)
    → r.msg_id ≡ id
    → r.msg_name ≡ name
    → Named id name (t ++ (r ∷ []))
Named-added id name [] r e f = inl (e, f)
Named-added id name (x ∷ t) r e f = inr (Named-added id name t r e f)

same_name→eq : (s t : Name) → same_name s t ≡ true → s ≡ t
unfolding same_name
same_name→eq [] [] e = refl
same_name→eq [] (b ∷ t) e = absurd (ground (arith, e))
same_name→eq (a ∷ s) [] e = absurd (ground (arith, e))
same_name→eq (a ∷ s) (b ∷ t) e =
    let head : a ≡ b = ground (arith, e) in
    let tail = same_name→eq s t (ground (arith, e)) in ap (λ x. x ∷ s) head ∙ ap (λ l. b ∷ l) tail

no_collision :
    (id : ℕ) (n k : Name) (t : List Route) → has_collision id n t ≡ false → Named id k t → k ≡ n
unfolding has_collision
no_collision id n k [] h m = elim m [ ]
no_collision id n k (r ∷ t) h (inl (e, f)) =
    sym f ∙ same_name→eq r.msg_name n (ground (arith, h, e))
no_collision id n k (r ∷ t) h (inr m) = no_collision id n k t (ground (arith, h)) m

agreed_names :
    (id : ℕ) (n k : Name) (xs ys : List Route) → Agree xs ys → Named id n xs → Named id k ys → k ≡ n
agreed_names id n k [] ys _ m q = elim m [ ]
agreed_names id n k (r ∷ t) ys (h, _) (inl (e, f)) m =
    no_collision r.msg_id r.msg_name k ys h (subst (λ i. Named i k ys) (sym e) m) ∙ f
agreed_names id n k (r ∷ t) ys (_, h) (inr m) q = agreed_names id n k t ys h m q

-- In valid tables an id stands for one name.
pub one_name :
    {cfg : Config} (c : Core) (id : ℕ) (n k : Name)
    → RegistryValid cfg c
    → Routed id n c.reg_table c.sub_table
    → Routed id k c.reg_table c.sub_table
    → k ≡ n
one_name c id n k v (inl p) (inl q) = agreed_names id n k c.reg_table c.reg_table v.names_rr p q
one_name c id n k v (inl p) (inr q) = agreed_names id n k c.reg_table c.sub_table v.names_rs p q
one_name c id n k v (inr p) (inl q) = agreed_names id n k c.sub_table c.reg_table v.names_sr p q
one_name c id n k v (inr p) (inr q) = agreed_names id n k c.sub_table c.sub_table v.names_ss p q
