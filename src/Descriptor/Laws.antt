-- ===== src/Descriptor/Laws.antt =====
-- Lazy ids: `_ipc_ensure_id` of src/ipc.c and `_ipc_fnv1a` of ipc_internal.h.
use actor_framework_cxx.Prelude.{
  ℕ, ◌≡◌, inl, inr, fun_ext, ap, Bool-cases, true, arith, ◌==◌, ==_refl, if◌then◌else◌,
}
use actor_framework_cxx.State.{Desc, Core, update}
use actor_framework_cxx.Descriptor.{fnv1a, ensure_id, name_bytes}

-- What `_ipc_ensure_id` leaves in the descriptor.
abbrev pub with_id : Desc → Desc
with_id x = if x.id == 0 then record x { id = fnv1a (name_bytes x.name) } else x

pub descs-ensure_id :
    (d k : ℕ) (c : Core)
    → (ensure_id d c).descs k ≡ (if k == d then with_id (c.descs d) else c.descs k)
unfolding ensure_id
descs-ensure_id d k c = ground arith

pub with_id_idem : (x : Desc) → with_id (with_id x) ≡ with_id x
with_id_idem x = ground arith

-- A descriptor that has its id, or whose name hashes to 0, is left as it is.
ensure_id-fixed : (d : ℕ) (c : Core) → with_id (c.descs d) ≡ c.descs d → ensure_id d c ≡ c
unfolding ensure_id
ensure_id-fixed d c h = elim (Bool-cases ((c.descs d).id == 0)) [
  | inl z ↦ rw z (ap (λ f. record c { descs = f }) (fun_ext (same z)))
  | inr n ↦ rw n
]
  where
    same :
        (c.descs d).id == 0 ≡ true
        → (k : ℕ)
        → update c.descs d (record (c.descs d) { id = fnv1a (name_bytes (c.descs d).name) }) k
          ≡ c.descs k
    same z k = ground arith

-- A second call changes nothing, whatever the hash of the name.
pub ensure_id_idem : (d : ℕ) (c : Core) → ensure_id d (ensure_id d c) ≡ ensure_id d c
ensure_id_idem d c =
    ensure_id-fixed d (ensure_id d c)
      (rw (descs-ensure_id d d c, ==_refl d) (with_id_idem (c.descs d)))
