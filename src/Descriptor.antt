-- ===== src/Descriptor.antt =====
-- Message descriptors: the FNV-1a hash of ipc_internal.h, and the lazy ids, the validity test and
-- the message header of src/ipc.c.
pub mod Laws
use actor_framework_cxx.Prelude.{
  ℕ, ◌*◌, Bool, true, false, ◌&&◌, Option, none, some, List, [], ◌∷◌, Name, u32, bit_xor, ◌==◌,
  if◌then◌else◌,
}
use actor_framework_cxx.State.{Kind, is_kind, Payload, Desc, Msg, ok, Core, update}

-- The loop of `_ipc_fnv1a` from the hash `h` on.
fnv1a_from : ℕ → Name → ℕ
fnv1a_from h [] = h
fnv1a_from h (b ∷ s) = fnv1a_from (u32 (bit_xor h b * 0x01000193)) s

-- `_ipc_fnv1a`
unfoldable pub fnv1a : Name → ℕ
unfolding fnv1a_from
fnv1a s = fnv1a_from 0x811c9dc5 s

-- The text at `name`. No caller comes here with NULL: it is tested, or a macro wrote the literal.
abbrev pub name_bytes : Option Name → Name
name_bytes none = []
name_bytes (some s) = s

-- `_ipc_ensure_id`. No other thread computes another value, so the exchange is an assignment.
unfoldable pub ensure_id : ℕ → Core → Core
ensure_id d c =
    let x = c.descs d in
    if x.id == 0
    then record c { descs = update c.descs d (record x { id = fnv1a (name_bytes x.name) }) }
    else c

abbrev pub has_name : Option Name → Bool
has_name none = false
has_name (some s) = true

-- `valid_descriptor`
unfoldable pub valid_descriptor : Option ℕ → Kind → Core → Bool
valid_descriptor none kind c = false
valid_descriptor (some d) kind c = is_kind (c.descs d).kind kind && has_name (c.descs d).name

-- `make_msg`
abbrev pub make_msg : Desc → Payload → Msg
make_msg d payload = record {
  id = d.id;
  kind = d.kind;
  size = d.size;
  payload = payload;
  ask_id = 0;
  reply_id = 0;
  result = ok;
}
