-- ===== src/Breakpoint/Setup.antt =====
-- What `set_lstar_breakpoint` returns, and the guest's bytes and the globals behind it.
use xen_syscall_analysis.Base.{
  ℕ, ◌≡◌, ◌≢◌, refl, ◌∙◌, ◌⊎◌, inl, inr, Bool-cases, Option, some, none, ◌==◌, if◌then◌else◌, arith,
}
use xen_syscall_analysis.LibVmi.{LibVmi, MemoryLaws, Reg, int3, singlestep}
use xen_syscall_analysis.Breakpoint.{
  breakpoint, Session, Returned, returned, no_value, register_breakpoint, insert_breakpoint,
  pause_and_insert, set_lstar_breakpoint,
}
use xen_syscall_analysis.Breakpoint.Callbacks.{byte}

module _ (v : LibVmi) where
  -- No path returns VMI_SUCCESS: the function returns 1, or ends without a value.
  pub set_lstar_breakpoint_value :
      (s : Session v)
      → ((set_lstar_breakpoint v s).0 ≡ no_value) ⊎ ((set_lstar_breakpoint v s).0 ≡ returned 1)
  unfolding set_lstar_breakpoint pause_and_insert insert_breakpoint register_breakpoint
  set_lstar_breakpoint_value s = ground arith

  -- The breakpoint stands at `entry` in place of `opcode`, and the callbacks know of both.
  pub record IsArmed (entry opcode : ℕ) (s : Session v) : Type 0 where
    pub lstar : s.lstar ≡ entry
    pub saved : s.saved_opcode ≡ opcode
    pub address : s.cb_data.sym_vaddr ≡ entry
    pub data_saved : s.cb_data.saved_opcode ≡ opcode

module _ (v : LibVmi) (m : MemoryLaws v) where
  register_breakpoint_lem :
      (s : Session v)
      → let t = (register_breakpoint v s).1 in
        IsArmed v s.lstar s.saved_opcode t
        × (t.interrupted ≡ s.interrupted)
        × ((x : ℕ) → byte v m t x ≡ byte v m s x)
  unfolding register_breakpoint
  register_breakpoint_lem s = (ground arith, ground arith, bytes)
    where
      w1 : v.World
      w1 = (v.register_event s.world int3).1

      w2 : v.World
      w2 = (v.register_event w1 singlestep).1

      bytes : (x : ℕ) → byte v m (register_breakpoint v s).1 x ≡ byte v m s x
      bytes x = ground (
        arith,
        m.register_keeps s.world int3 x,
        m.register_keeps w1 singlestep x,
        m.resume_keeps w2 x,
      )

  -- What holds of the session behind the setup, whatever it returned.
  pub record Prepared (s : Session v) (r : Returned) (t : Session v) : Type 0 where
    pub others : (x : ℕ) → x ≢ t.lstar → byte v m t x ≡ byte v m s x
    pub kept :
        (t.saved_opcode ≡ byte v m s t.lstar)
        ⊎ ((t.saved_opcode ≡ s.saved_opcode) × ((x : ℕ) → byte v m t x ≡ byte v m s x))
    pub success :
        r ≡ no_value → IsArmed v t.lstar (byte v m s t.lstar) t × (byte v m t t.lstar ≡ breakpoint)

  inserted_lem :
      (s : Session v) (opcode : ℕ) (w : v.World)
      → opcode ≡ byte v m s s.lstar
      → ((x : ℕ) → m.byte_at w x ≡ (if x == s.lstar then breakpoint else byte v m s x))
      → let (r, t) = register_breakpoint v (record s { world = w; saved_opcode = opcode }) in
        Prepared s r t × (t.interrupted ≡ s.interrupted) × (t.lstar ≡ s.lstar)
  inserted_lem s opcode w h stands =
      let (set, same, bytes) =
        register_breakpoint_lem (record s { world = w; saved_opcode = opcode }) in
      (
        record {
          others = λ x ne. ground (arith, bytes x, stands x, set.lstar);
          kept = inl (ground (arith, set.saved, set.lstar));
          success = λ e. (
            ground (arith, set.lstar, set.saved, set.address, set.data_saved),
            ground (arith, bytes s.lstar, stands s.lstar, set.lstar),
          );
        },
        same,
        set.lstar,
      )

  -- The same for the steps from the insertion on; `opcode` has been read.
  insert_breakpoint_lem :
      (s : Session v) (opcode : ℕ)
      → opcode ≡ byte v m s s.lstar
      → let (r, t) = insert_breakpoint v (some opcode) s in
        Prepared s r t × (t.interrupted ≡ s.interrupted) × (t.lstar ≡ s.lstar)
  unfolding insert_breakpoint
  insert_breakpoint_lem s opcode h =
      let w : v.World = (v.write_va s.world s.lstar breakpoint).1 in
      elim (Bool-cases (v.write_va s.world s.lstar breakpoint).0) [
        | inl done ↦
            rw done (inserted_lem s opcode w h (λ x. m.write_ok s.world s.lstar breakpoint x done))
        | inr failed ↦ rw failed (
          record {
            others = λ x ne. m.write_failed s.world s.lstar breakpoint x failed;
            kept = inl h;
            success = λ e. cc;
          },
          refl,
          refl,
        )
      ]

  read_and_insert_lem :
      (s : Session v) (o : Option ℕ)
      → ((b : ℕ) → o ≡ some b → b ≡ byte v m s s.lstar)
      → let (r, t) = insert_breakpoint v o s in
        Prepared s r t × (t.interrupted ≡ s.interrupted) × (t.lstar ≡ s.lstar)
  unfolding insert_breakpoint
  read_and_insert_lem s none h = (
    record { others = λ x ne. refl; kept = inr (refl, λ x. refl); success = λ e. cc },
    refl,
    refl,
  )
  read_and_insert_lem s (some b) h = insert_breakpoint_lem s b (h b refl)

  Prepared-paused :
      (s t : Session v) {r : Returned} {u : Session v}
      → ((x : ℕ) → byte v m t x ≡ byte v m s x)
      → t.saved_opcode ≡ s.saved_opcode
      → Prepared t r u
      → Prepared s r u
  Prepared-paused s t {r} {u} keeps same p = record {
    others = λ x ne. p.others x ne ∙ keeps x;
    kept = elim p.kept [
      | inl k ↦ inl (k ∙ keeps u.lstar)
      | inr k ↦ inr (k.0 ∙ same, λ x. k.1 x ∙ keeps x)
    ];
    success = λ e. rw (← keeps u.lstar) (p.success e);
  }

  pause_and_insert-Prepared :
      (s : Session v) (o : Option ℕ)
      → Prepared s (pause_and_insert v o s).0 (pause_and_insert v o s).1
  unfolding pause_and_insert
  pause_and_insert-Prepared s none = record {
    others = λ x ne. refl;
    kept = inr (refl, λ x. refl);
    success = λ e. cc;
  }
  pause_and_insert-Prepared s (some entry) =
      let w : v.World = (v.pause_vm s.world).1 in
      let t : Session v = record s { world = w; lstar = entry } in
      let keeps : (x : ℕ) → byte v m t x ≡ byte v m s x = λ x. m.pause_keeps s.world x in
      elim (Bool-cases (v.pause_vm s.world).0) [
        | inl done ↦ rw done (
            Prepared-paused s t keeps refl
              (read_and_insert_lem t (v.read_va w entry) (λ b e. m.read_ok w entry e)).0)
        | inr failed ↦
            rw failed
              record { others = λ x ne. keeps x; kept = inr (refl, keeps); success = λ e. cc }
      ]

  -- `set_lstar_breakpoint` changes no byte but the one at the entry, keeps that byte's value if it
  -- changes it, and when all its steps succeed the breakpoint stands there.
  pub set_lstar_breakpoint-Prepared :
      (s : Session v) → Prepared s (set_lstar_breakpoint v s).0 (set_lstar_breakpoint v s).1
  unfolding set_lstar_breakpoint
  set_lstar_breakpoint-Prepared s =
      pause_and_insert-Prepared s (v.get_vcpureg s.world Reg.msr_lstar 0)

  -- `set_lstar_breakpoint` changes no byte but the one at the entry, whatever it returns.
  set_lstar_breakpoint_other :
      (s : Session v) (x : ℕ)
      → x ≢ (set_lstar_breakpoint v s).1.lstar
      → byte v m (set_lstar_breakpoint v s).1 x ≡ byte v m s x
  set_lstar_breakpoint_other s x ne = (set_lstar_breakpoint-Prepared s).others x ne

  -- When all its steps succeed, the breakpoint stands at the entry, and the byte that was there is
  -- kept, with the address, both in the globals and in the data of the callbacks.
  pub set_lstar_breakpoint-IsArmed :
      (s : Session v)
      → (set_lstar_breakpoint v s).0 ≡ no_value
      → let t = (set_lstar_breakpoint v s).1 in
        IsArmed v t.lstar (byte v m s t.lstar) t × (byte v m t t.lstar ≡ breakpoint)
  set_lstar_breakpoint-IsArmed s e = (set_lstar_breakpoint-Prepared s).success e
