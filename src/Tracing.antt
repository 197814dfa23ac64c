-- ===== src/Tracing.antt =====
-- The life of a tracing run: `introspect_syscall_trace` of src/syscall-trace.c, built without
-- MEM_EVENT, and `close_handler` of src/vmi.h. A call of `vmi_events_listen` is a round: what the
-- library delivers in it, its status and the clock behind it. A signal counts from the round on in
-- which it comes. What is written to the socket is what Window keeps.
pub mod Ending
pub mod Static
pub mod Memory
pub mod Restore
pub mod Cycle
pub mod Whole
pub mod Calls
pub mod Visits
pub mod Ends
pub mod Program
use xen_syscall_analysis.Base.{
  ℕ, ◌*◌, Bool, true, false, not, ◌&&◌, Option, some, none, List, [], ◌∷◌, ltb, ◌==◌, if◌then◌else◌,
}
use xen_syscall_analysis.Base.Int.{ℤ, pos, negsuc, is_nonzero}
use xen_syscall_analysis.Text.{Text}
use xen_syscall_analysis.LibVmi.{LibVmi, int3, singlestep}
use xen_syscall_analysis.Connection.{Answers, Run, ◌>>=◌, ◌>>◌, return}
use xen_syscall_analysis.StartUp.{
  Opening, open_guest, Launch, crashed, ran, launch, with_connection,
}
use xen_syscall_analysis.SyscallTable.{Tables, learn_mode, analysis_mode, read_syscall_table}
use xen_syscall_analysis.Window.{empty_window}
use xen_syscall_analysis.Process.{Tracer, Junk, create_csv_file}
use xen_syscall_analysis.Breakpoint.{
  Session, new_session, Interrupt, Returned, returned, no_value, vmi_success, write_byte,
  breakpoint_cb, single_step_cb, set_lstar_breakpoint,
}

-- An event of the guest, and the callback that it is for.
pub data Kind : Type 0 where
  on_int3 : Junk → Interrupt → Kind
  on_step : (vcpu : ℕ) (has_data : Bool) → Kind

-- `guest` is what the guest does before the event.
pub record Delivery (v : LibVmi) : Type 0 where
  pub guest : v.World → v.World
  pub kind : Kind

-- `elapsed` is `difftime(time(NULL), start_time)`, in seconds.
pub record Round (v : LibVmi) : Type 0 where
  pub signal : Option ℕ
  pub deliveries : List (Delivery v)
  pub status : Bool
  pub elapsed : ℕ

-- How the library and the system answer while the run starts up: `fall_off` is what the caller of a
-- function finds that ends without a value, and `to_float` the conversion to `float`.
pub record Host (v : LibVmi) : Type 0 where
  pub opening : Opening v
  pub answers : Answers
  pub index_file : Option Text
  pub set_file : Option Text
  pub junk_name : Text
  pub old_csv : Text
  pub fall_off : ℕ
  pub to_float : ℕ → ℕ

-- A run with its loop left, or still going.
pub data Outcome (v : LibVmi) : Type 0 where
  ended : Session v → Outcome v
  running : Session v → Outcome v

-- What the caller of `set_lstar_breakpoint` compares with VMI_SUCCESS.
unfoldable pub code_of : (fall_off : ℕ) → Returned → ℕ
code_of fall_off (returned n) = n
code_of fall_off no_value = fall_off

-- `set_time > 0`.
unfoldable pub is_timed : ℤ → Bool
is_timed (pos n) = ltb 0 n
is_timed (negsuc n) = false

-- `set_time * 60`, used only if `set_time > 0`.
unfoldable pub seconds : ℤ → ℕ
seconds (pos n) = n * 60
seconds (negsuc n) = 0

unfoldable pub start_tracer : (set_mode : ℕ) (old_csv : Text) → Tables → Tracer
start_tracer set_mode old_csv tables =
    let t : Tracer = record {
      running_mode = set_mode;
      tables = tables;
      window = empty_window;
      csv = old_csv;
      printed = [];
      live = 0;
    } in
    if set_mode == learn_mode then create_csv_file t else t

module _ (v : LibVmi) where
  dispatch : Kind → Session v → Session v
  dispatch (on_int3 junk e) s =
      let (response, e', s) = breakpoint_cb v junk e s in
      record s { world = v.respond s.world e.vcpu response }
  dispatch (on_step vcpu has_data) s =
      let (response, s) = single_step_cb v has_data s in
      record s { world = v.respond s.world vcpu response }

  unfoldable pub deliver : Delivery v → Session v → Session v
  unfolding dispatch
  deliver d s = dispatch d.kind (record s { world = d.guest s.world })

  unfoldable pub deliver_all : List (Delivery v) → Session v → Session v
  deliver_all [] s = s
  deliver_all (d ∷ ds) s = deliver_all ds (deliver d s)

  -- `close_handler`.
  unfoldable pub close_handler : Option ℕ → Session v → Session v
  close_handler none s = s
  close_handler (some sig) s = record s { interrupted = pos sig }

  -- The body of the loop; `limit` is `f_set_time`.
  unfoldable pub listen_once : (timed : Bool) (limit : ℕ) → Round v → Session v → Session v
  listen_once timed limit r s =
      let s = deliver_all r.deliveries (close_handler r.signal s) in
      let s = if r.status then s else record s { interrupted = negsuc 0 } in
      if timed && ltb limit r.elapsed then record s { interrupted = negsuc 0 } else s

  -- `while (!interrupted)` over the rounds; `running` if they end before the loop does.
  unfoldable pub listen : (timed : Bool) (limit : ℕ) → List (Round v) → Session v → Outcome v
  listen timed limit [] s = if is_nonzero s.interrupted then ended s else running s
  listen timed limit (r ∷ rs) s =
      let rest = listen timed limit rs (listen_once timed limit r s) in
      if is_nonzero s.interrupted then ended s else rest

  unfoldable pub restore_opcode : Session v → Session v
  restore_opcode s =
      let s = record s { world = (v.pause_vm s.world).1 } in
      if s.saved_opcode == 0 then s else (write_byte v s.lstar s.saved_opcode s).1

  unfoldable pub drain : (pending : List (Delivery v)) → Session v → Session v
  drain pending s = if v.are_events_pending s.world then deliver_all pending s else s

  unfoldable pub unregister : Session v → Session v
  unregister s =
      let w = v.clear_event s.world int3 in
      let w = v.clear_event w singlestep in
      let w = (v.resume_vm w).1 in record s { world = v.destroy w }

  -- From `error_exit` on; `pending` is what the last call of `vmi_events_listen` delivers.
  unfoldable pub close_session : (pending : List (Delivery v)) → Session v → Session v
  close_session pending s = unregister (drain pending (restore_opcode s))

  unfoldable pub close_outcome : (pending : List (Delivery v)) → Outcome v → Outcome v
  close_outcome pending (ended s) = ended (close_session pending s)
  close_outcome pending (running s) = running s

  unfoldable pub trace :
      (fall_off : ℕ) (timed : Bool) (limit : ℕ) (rounds : List (Round v))
      → (pending : List (Delivery v)) → Session v
      → Outcome v
  trace fall_off timed limit rounds pending s =
      let (result, s) = set_lstar_breakpoint v s in
      close_outcome pending
        (if code_of fall_off result == vmi_success then listen timed limit rounds s else ended s)

  -- A run from the clearing of the trace file on.
  unfoldable pub trace_guest :
      Host v
      → (set_mode : ℕ) (set_time : ℤ) → List (Round v)
      → (pending : List (Delivery v)) → Tables
      → v.World
      → Outcome v
  trace_guest h set_mode set_time rounds pending tables w =
      trace h.fall_off (is_timed set_time) (h.to_float (seconds set_time)) rounds pending
        (new_session v w (start_tracer set_mode h.old_csv tables))

  abbrev pub has_ended : Launch v (Outcome v) → Bool
  has_ended (ran (ended s)) = true
  has_ended l = false

  with_tables :
      Host v
      → (set_mode : ℕ) (set_time : ℤ) → List (Round v)
      → (pending : List (Delivery v)) → Option Tables
      → Run (Launch v (Outcome v))
  with_tables h set_mode set_time rounds pending none = return crashed
  with_tables h set_mode set_time rounds pending (some tables) =
      let l =
        launch v (trace_guest h set_mode set_time rounds pending tables) (open_guest v h.opening) in
      with_connection (set_mode == analysis_mode) h.answers (has_ended l) l

  -- The calls of the system for the connection, and how the program ends. The parameter
  -- `window_size` hides the global of that name, and nothing uses it.
  unfoldable pub introspect_syscall_trace :
      Host v
      → (set_mode : ℕ) (window_size set_time : ℤ) → List (Round v)
      → (pending : List (Delivery v)) → Run (Launch v (Outcome v))
  unfolding with_tables
  introspect_syscall_trace h set_mode window_size set_time rounds pending =
      with_tables h set_mode set_time rounds pending
        (read_syscall_table h.junk_name set_mode h.index_file h.set_file)
