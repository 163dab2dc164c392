-- ===== src/Terminal.antt =====
-- src/output/TerminalRenderer.cpp: the renderer that writes the terminal's control sequences and the
-- encoded images to an output sink.
-- The sink is the application's (include/rasterm/OutputSink.hpp): all that the renderer sees of it is
-- the answer to each call, so the model takes `answers`, the reply of the sink to its n-th call, as a
-- parameter, and keeps the calls made, newest first, in `calls`.
pub mod Closure
pub mod Chunks
pub mod Update
pub mod Restore
pub mod Transaction
pub mod Wire
pub mod Errors
mod Tests
use rasterm.Base.{
  ℕ, zero, suc, ◌+◌, ◌-◌, ◌%◌, ◌^◌, min, Bool, true, false, not, ◌&&◌, ◌||◌, List, [], ◌∷◌, ◌++◌,
  leb, ◌==◌, ltb, if◌then◌else◌, length, take, drop, codes,
}
use rasterm.Decimal.{decimal}
use rasterm.Error.{ErrorCode, no_error, output_write_failed, output_flush_failed, is_none}

-- One call of the sink and its answer: `sink.write(bytes)` or `sink.flush()`. The second try of
-- `recoveryWrite` is told apart from a first one.
pub data Call : Type 0 where
  wrote : List ℕ → Bool → Call
  retried : List ℕ → Bool → Call
  flushed : Bool → Call

-- The members of `TerminalRenderer`, and the calls that its sink has had.
pub record Terminal : Type 0 where
  pub uses_alternate_screen : Bool
  pub update_active : Bool
  pub restore_cursor : Bool
  pub synchronized_active : Bool
  pub last_error : ErrorCode
  pub accepted : ℕ
  pub calls : List Call

-- The members as they are initialised, before the sink has had a call.
abbrev pub fresh : Bool → Terminal
fresh alternate = record {
  uses_alternate_screen = alternate;
  update_active = false;
  restore_cursor = false;
  synchronized_active = false;
  last_error = no_error;
  accepted = 0;
  calls = [];
}

-- A method: the object before it, to its result and the object after it.
abbrev pub M : Type 0 → Type 0
M A = Terminal → A × Terminal

infixl 5 ◌>>=◌ ◌>>◌
abbrev pub ◌>>=◌ : {A B : Type 0} → M A → (A → M B) → M B
◌>>=◌ m f t = let (a, t') = m t in f a t'

abbrev pub ◌>>◌ : {A B : Type 0} → M A → M B → M B
◌>>◌ m k t = k (m t).1

abbrev pub return : {A : Type 0} → A → M A
return a t = (a, t)

-- `std::size_t` addition.
abbrev pub add_size : ℕ → ℕ → ℕ
add_size a b = (a + b) % 2 ^ 64

-- The control sequences, `\x1b` first.
abbrev pub escape : List ℕ → List ℕ
escape bytes = 27 ∷ bytes

abbrev pub enter_alternate : List ℕ
enter_alternate = escape (codes "[?1049h")

abbrev pub leave_alternate : List ℕ
leave_alternate = escape (codes "[?1049l")

abbrev pub hide_cursor : List ℕ
hide_cursor = escape (codes "[?25l")

abbrev pub show_cursor : List ℕ
show_cursor = escape (codes "[?25h")

abbrev pub display_mode_on : List ℕ
display_mode_on = escape (codes "[?80h")

abbrev pub display_mode_off : List ℕ
display_mode_off = escape (codes "[?80l")

abbrev pub begin_update : List ℕ
begin_update = escape (codes "[?2026h")

abbrev pub end_update : List ℕ
end_update = escape (codes "[?2026l")

abbrev pub save_cursor : List ℕ
save_cursor = escape (codes "7")

abbrev pub load_cursor : List ℕ
load_cursor = escape (codes "8")

abbrev pub string_terminator : List ℕ
string_terminator = escape (codes "\\")

abbrev pub cursor_home : List ℕ
cursor_home = escape (codes "[H")

abbrev pub clear_and_home_bytes : List ℕ
clear_and_home_bytes = escape (codes "[2J") ++ escape (codes "[H")

-- `snprintf("\x1b[%d;%dH", row + 1, column + 1)`; a row and a column are not negative here.
abbrev pub cursor_position : ℕ → ℕ → List ℕ
cursor_position row column =
    escape (codes "[" ++ (decimal (row + 1) ++ (codes ";" ++ (decimal (column + 1) ++ codes "H"))))

-- `lastError == ErrorCode::None`.
unfoldable pub good : Terminal → Bool
good t = is_none t.last_error

module _ (answers : ℕ → Bool) where
  -- `sink.write(bytes)`.
  unfoldable pub sink_write : List ℕ → M Bool
  sink_write bytes t =
      let reply = answers (length t.calls) in
      (reply, record t { calls = wrote bytes reply ∷ t.calls })

  -- `(void)sink.write(bytes)`, the second try of `recoveryWrite`.
  unfoldable pub sink_retry : List ℕ → Terminal → Terminal
  sink_retry bytes t = record t { calls = retried bytes (answers (length t.calls)) ∷ t.calls }

  -- `sink.flush()`.
  unfoldable pub sink_flush : M Bool
  sink_flush t =
      let reply = answers (length t.calls) in (reply, record t { calls = flushed reply ∷ t.calls })

  unfoldable pub write : List ℕ → M Bool
  unfolding sink_write
  write bytes t =
      let (reply, t') = sink_write bytes t in
      if reply
      then (true, record t' { accepted = add_size t'.accepted (length bytes) })
      else (false, record t' { last_error = output_write_failed })

  unfoldable pub flush : M Bool
  unfolding sink_flush
  flush t =
      let (reply, t') = sink_flush t in
      if reply then (true, t') else (false, record t' { last_error = output_flush_failed })

  -- A refused recovery write is tried once more; an earlier error is kept.
  unfoldable pub recovery_write : List ℕ → M Bool
  unfolding sink_write sink_retry
  recovery_write bytes t =
      let (reply, t') = sink_write bytes t in
      if reply
      then (true, record t' { accepted = add_size t'.accepted (length bytes) })
      else (let error = if is_none t'.last_error then output_write_failed else t'.last_error in
          (false, sink_retry bytes (record t' { last_error = error })))

  unfoldable pub recovery_flush : M Bool
  unfolding sink_flush
  recovery_flush t =
      let (reply, t') = sink_flush t in
      if reply
      then (true, t')
      else (let error = if is_none t'.last_error then output_flush_failed else t'.last_error in
          (false, (sink_flush (record t' { last_error = error })).1))

  -- The loop of `writeChunks` from `offset` on. Fuel: one round writes at least one byte.
  unfoldable pub chunk_loop : ℕ → List ℕ → ℕ → ℕ → M Bool
  unfolding write recovery_write
  chunk_loop zero bytes chunk offset t = (false, t)
  chunk_loop (suc fuel) bytes chunk offset t =
      let count = min chunk (length bytes - offset) in
      let rest = λ (t' : Terminal). chunk_loop fuel bytes chunk (offset + count) t' in
      elim (ltb offset (length bytes)) [
        | false ↦ (true, t)
        | true ↦
            let (success, t') = write (take count (drop offset bytes)) t in
            elim success [
              | true ↦ rest t'
              | false ↦
                  (false, if ltb 0 offset then (recovery_write string_terminator t').1 else t')
            ]
      ]

  unfoldable pub write_chunks : List ℕ → ℕ → M Bool
  unfolding chunk_loop
  write_chunks bytes chunk t =
      if (chunk == 0) || leb (length bytes) chunk
      then write bytes t
      else chunk_loop (length bytes + 1) bytes chunk 0 t

  unfoldable pub clear_and_home : M Bool
  clear_and_home t =
      let (success, t') = write clear_and_home_bytes t in
      if t'.update_active
      then (success, t')
      else (let (flush_ok, t'') = flush t' in (flush_ok && success, t''))

  unfoldable pub begin_synchronized_update : Bool → Bool → M Bool
  begin_synchronized_update preserve synchronized t =
      if t.update_active
      then (good t, t)
      else (let t0 = record t {
        last_error = no_error;
        update_active = true;
        restore_cursor = false;
        synchronized_active = false;
      } in
          let (sync, t1) = if synchronized then write begin_update t0 else (false, t0) in
          let t2 = record t1 { synchronized_active = sync } in
          let success = if synchronized then sync else true in
          let (saved, t3) = if preserve then write save_cursor t2 else (false, t2) in
          let t4 = record t3 { restore_cursor = saved } in
          ((if preserve then saved && success else success), t4))

  unfoldable pub end_synchronized_update : M Bool
  end_synchronized_update t =
      if not t.update_active
      then (good t, t)
      else (let (cursor_ok, t1) =
            if t.restore_cursor then recovery_write load_cursor t else (true, t) in
          let (sync_ok, t2) =
            if t1.synchronized_active then recovery_write end_update t1 else (true, t1) in
          let (flush_ok, t3) = recovery_flush t2 in
          (
            flush_ok && (sync_ok && cursor_ok),
            record t3 {
              update_active = false;
              restore_cursor = false;
              synchronized_active = false;
            },
          ))

  unfoldable pub draw_at_home : List ℕ → Bool → ℕ → M Bool
  draw_at_home sixel restore chunk t =
      let save_locally = restore && not t.update_active in
      let (ok0, t0) = if save_locally then write save_cursor t else (true, t) in
      let (ok1, t1) = write display_mode_on t0 in
      let (ok2, t2) = write cursor_home t1 in
      let (ok3, t3) = write_chunks sixel chunk t2 in
      let (ok4, t4) = recovery_write display_mode_off t3 in
      let (ok5, t5) = if save_locally then recovery_write load_cursor t4 else (true, t4) in
      let (ok6, t6) = if t5.update_active then (true, t5) else flush t5 in
      (ok6 && (ok5 && (ok4 && (ok3 && (ok2 && (ok1 && ok0))))), t6)

  unfoldable pub draw_at_cell : ℕ → ℕ → List ℕ → Bool → ℕ → M Bool
  draw_at_cell row column sixel restore chunk t =
      let save_locally = restore && not t.update_active in
      let (ok0, t0) = if save_locally then write save_cursor t else (true, t) in
      let (ok1, t1) = write (cursor_position row column) t0 in
      let (ok2, t2) = write_chunks sixel chunk t1 in
      let (ok3, t3) = if save_locally then recovery_write load_cursor t2 else (true, t2) in
      let (ok4, t4) = if t3.update_active then (true, t3) else flush t3 in
      (ok4 && (ok3 && (ok2 && (ok1 && ok0))), t4)

  -- The constructor.
  unfoldable pub construct : Bool → Terminal
  construct alternate =
      let t1 = if alternate then (write enter_alternate (fresh alternate)).1 else fresh alternate in
      (flush (write display_mode_off (write hide_cursor t1).1).1).1

  -- The destructor.
  pub destruct : Terminal → Terminal
  destruct t =
      let t1 = (recovery_write show_cursor (end_synchronized_update t).1).1 in
      let t2 = if t1.uses_alternate_screen then (recovery_write leave_alternate t1).1 else t1 in
      (recovery_flush t2).1
