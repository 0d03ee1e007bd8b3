-- ===== src/Definition/Ready.antt =====
-- An actor that `_IPC_ACTOR_DEFINE` of src/port/zephyr/ipc_actor_define.h defines starts, and takes the
-- messages that it declares room for.
use actor_framework_cxx.Prelude.{
  ℕ, ◌+◌, ◌-◌, ◌*◌, ◌<◌, ◌≤◌, ◌≡◌, ◌≢◌, refl, sym, ap, subst, ◌∙◌, none, some, [], ◌∷◌, length,
  ◌++◌, Name, Bool, ◌||◌, ◌==◌, true, false, ◌^◌, arith, Option, if◌then◌else◌, ltb,
}
use native.Mathlib.Nat.{mul-div_left}
use mathlib.Core.Option.{get_or}
use actor_framework_cxx.State.{Rc, ok, err, einval, Msg, Actor}
use actor_framework_cxx.Slot.{Abi, align_up, slot_size_of, stored}
use actor_framework_cxx.Slot.Size.{slot_size_of_lem}
use actor_framework_cxx.ZephyrPort.Services.{Kernel, IsKernel}
use actor_framework_cxx.ZephyrPort.Queue.{
  mailbox, queued, over_limit, over_slot, full, send_zephyr_lem,
}
use actor_framework_cxx.ZephyrPort.{
  ZephyrConfig, ZephyrState, launched, resources_ready, init_zephyr, send_zephyr,
}
use actor_framework_cxx.Definition.{actor_of, port_state_of, depth_of, zephyr_define}

none_ne_some : {A : Type 0} (d : A) → none ≢ some d
none_ne_some d e = cc

if-some :
    {A : Type 0} (b : Bool) (x d : A)
    → (if b then none else some x) ≡ some d
    → (b ≡ false) × (x ≡ d)
if-some true x d e = absurd (none_ne_some d e)
if-some false x d e = (refl, ap (λ (o : Option _). get_or o x) e)

positive : (s q : ℕ) → (s == 0 || q == 0) ≡ false → (0 < s) × (0 < q)
positive s q h = ground (arith, h)

module _ {Q W : Type 0} (kernel : Kernel Q W) (laws : IsKernel kernel) (stack_sizeof : ℕ → ℕ)
    (cfg : ZephyrConfig) (abi : Abi) (msgq : Q) (work : W) where
  -- What the macro defines.
  abbrev defined : Name → (stack_sz qdepth max : ℕ) → Actor × ZephyrState Q W
  defined name stack_sz qdepth max = (
    actor_of name (stack_sizeof stack_sz) (depth_of abi qdepth max) max,
    port_state_of stack_sizeof cfg abi msgq work stack_sz qdepth max,
  )

  resources_ready-defined :
      (name : Name) (stack_sz qdepth max : ℕ)
      → 0 < stack_sizeof stack_sz
      → 0 < depth_of abi qdepth max
      → align_up abi.header abi.alignment ≤ slot_size_of abi max
      → let d = defined name stack_sz qdepth max in resources_ready kernel cfg abi d.0 d.1 ≡ true
  unfolding resources_ready
  resources_ready-defined name stack_sz qdepth max s q h = ground (arith, s, q, h)

  room-enough :
      (slot max size head : ℕ)
      → head + max ≤ slot
      → size ≤ max
      → size ≤ (if ltb slot head then slot + (18446744073709551616 - head) else slot - head)
  room-enough slot max size head h k = ground (arith, h, k)

  -- An actor that was launched on a queue.
  abbrev Launched : ZephyrState Q W → Rc × ZephyrState Q W → Type 0
  Launched p r =
      (r.0 ≡ ok) × (r.1.thread ≡ true) × (r.1.slot_size ≡ p.slot_size) × (r.1.msgq ≡ p.msgq)

  launched-Launched :
      (b : Bool) (a : ℕ) (p : ZephyrState Q W)
      → p.has_delayed_payload ≡ b
      → Launched p (launched kernel cfg abi b a p)
  unfolding launched
  launched-Launched false a p h = (refl, refl, refl, refl)
  launched-Launched true a p h = branch p.has_delayed_payload h
    where
      branch :
          (c : Bool)
          → c ≡ true
          → Launched p (
              if c
              then (ok, record p { owner = some a; delayed_work = kernel.work_init; thread = true })
              else (err einval, p))
      branch true e = (refl, refl, refl, refl)
      branch false e = absurd (cc)

  init-Launched :
      (a : ℕ) (x : Actor) (p : ZephyrState Q W)
      → resources_ready kernel cfg abi x p ≡ true
      → p.has_delayed_payload ≡ cfg.send_after
      → Launched
          (record p { msgq = kernel.msgq_init p.slot_size p.queue_depth })
          (init_zephyr kernel cfg abi a x p)
  unfolding init_zephyr
  init-Launched a x p h k =
      let q : ZephyrState Q W = record p { msgq = kernel.msgq_init p.slot_size p.queue_depth } in
      subst
        (λ b.
          Launched q (if b then launched kernel cfg abi cfg.send_after a q else (err einval, p)))
        (sym h) (launched-Launched cfg.send_after a q k)

  -- The sizes of a defined actor fit: the header stands in a slot with any payload up to the largest.
  slot-head :
      (k m max : ℕ)
      → abi.alignment ≡ 2 ^ k
      → k + m ≡ 64
      → abi.header + max + 2 * abi.alignment ≤ 2 ^ 64
      → 0 < abi.header
      → (0 < slot_size_of abi max)
        × (align_up abi.header abi.alignment + max ≤ slot_size_of abi max)
  slot-head k m max ea h fits pos =
      let r = slot_size_of_lem abi max k m ea h fits in (omega (arith, r.2, r.3, pos), r.3)

  -- The first message that fits the actor's limit, to a launched actor whose queue is empty.
  first-send :
      (max : ℕ) (msg : Msg) (p : ZephyrState Q W)
      → mailbox kernel laws cfg abi p ≡ []
      → 0 < laws.depth p.msgq
      → msg.size ≤ max
      → align_up abi.header abi.alignment + max ≤ p.slot_size
      → let s = send_zephyr kernel cfg abi max msg p in
        (s.0 ≡ ok) × (mailbox kernel laws cfg abi s.1 ≡ stored msg ∷ [])
  first-send max msg p z d h room =
      let n = ap length z in
      elim (send_zephyr_lem kernel laws cfg abi max msg p (omega (arith, n))).0 [
        | queued e q _ _ ↦ (e, q ∙ ap (λ l. l ++ (stored msg ∷ [])) z)
        | over_limit e b ↦ absurd (omega (arith, b, h))
        | over_slot e b ↦ absurd (
            omega (
              arith,
              b,
              room-enough p.slot_size max msg.size (align_up abi.header abi.alignment) room h,
            ))
        | full e q b ↦ absurd (omega (arith, b, d, n))
      ]

  ready :
      (name : Name) (stack_sz qdepth max k m a : ℕ) (msg : Msg)
      → abi.alignment ≡ 2 ^ k
      → k + m ≡ 64
      → 0 < abi.header
      → abi.header + max + 2 * abi.alignment ≤ 2 ^ 64
      → 0 < stack_sizeof stack_sz
      → msg.size ≤ max
      → 0 < qdepth
      → let d = defined name stack_sz qdepth max in
        let r = init_zephyr kernel cfg abi a d.0 d.1 in
        let s = send_zephyr kernel cfg abi d.0.max_payload_size msg r.1 in
        (r.0 ≡ ok)
        × (r.1.thread ≡ true)
        × (laws.depth r.1.msgq ≡ qdepth)
        × (s.0 ≡ ok)
        × (mailbox kernel laws cfg abi s.1 ≡ stored msg ∷ [])
  ready name stack_sz qdepth max k m a msg ea h pos fits stack size q =
      let d = defined name stack_sz qdepth max in
      let r = init_zephyr kernel cfg abi a d.0 d.1 in
      let (slot, head) = slot-head k m max ea h fits pos in
      let depth : depth_of abi qdepth max ≡ qdepth = mul-div_left qdepth slot in
      let ready =
        resources_ready-defined name stack_sz qdepth max stack (omega (arith, depth, q))
          (omega (arith, head)) in
      let l = init-Launched a d.0 d.1 ready refl in
      let has =
        ap laws.depth l.3
        ∙ laws.init_depth (slot_size_of abi max) (depth_of abi qdepth max)
        ∙ depth in
      let none =
        ap laws.contents l.3 ∙ laws.init_empty (slot_size_of abi max) (depth_of abi qdepth max) in
      let sent =
        first-send max msg r.1 none (omega (arith, has, q)) size (omega (arith, head, l.2)) in
      (l.0, l.1, has, sent.0, sent.1)

  -- What the macro for actors defines on Zephyr, where its static assertions hold, is ready: the port
  -- makes the actor's resources ready, its thread lives, its queue has the depth that was asked for, and
  -- the first message up to the largest payload that was asked for is queued, so that no later test of
  -- the port refuses what the macro declared. The kernel keeps its laws, the alignment is a power of
  -- two, header, payload and two alignments together stay below the range of `size_t`, and the stack
  -- that the kernel declares is not empty.
  pub defined_ready :
      (name : Name) (stack_sz qdepth max k m a : ℕ) (msg : Msg) (d : Actor × ZephyrState Q W)
      → abi.alignment ≡ 2 ^ k
      → k + m ≡ 64
      → 0 < abi.header
      → abi.header + max + 2 * abi.alignment ≤ 2 ^ 64
      → 0 < stack_sizeof stack_sz
      → msg.size ≤ max
      → zephyr_define stack_sizeof cfg abi msgq work name stack_sz qdepth max ≡ some d
      → let r = init_zephyr kernel cfg abi a d.0 d.1 in
        let s = send_zephyr kernel cfg abi d.0.max_payload_size msg r.1 in
        (r.0 ≡ ok)
        × (r.1.thread ≡ true)
        × (laws.depth r.1.msgq ≡ qdepth)
        × (s.0 ≡ ok)
        × (mailbox kernel laws cfg abi s.1 ≡ stored msg ∷ [])
  unfolding zephyr_define
  defined_ready name stack_sz qdepth max k m a msg d ea h pos fits stack size e =
      let (f, path) =
        if-some (stack_sz == 0 || qdepth == 0) (defined name stack_sz qdepth max) d e in
      let q = positive stack_sz qdepth f in
      subst
        (λ (d : Actor × ZephyrState Q W).
          let r = init_zephyr kernel cfg abi a d.0 d.1 in
          let s = send_zephyr kernel cfg abi d.0.max_payload_size msg r.1 in
          (r.0 ≡ ok)
          × (r.1.thread ≡ true)
          × (laws.depth r.1.msgq ≡ qdepth)
          × (s.0 ≡ ok)
          × (mailbox kernel laws cfg abi s.1 ≡ stored msg ∷ []))
        path (ready name stack_sz qdepth max k m a msg ea h pos fits stack size q.1)
