-- ===== src/LogManager.antt =====
-- The log manager: `LogBuffer` and `LogManager` of recovery/log_manager.h, and log_manager.cpp. The
-- buffer is the bytes before `offset_`. Its mutex makes each call one step.
use claude_opus.Base.{ℕ, ◌+◌, ◌*◌, ℤ, negsuc, suc_ℤ, pos, Bool, ltb, if◌then◌else◌, List, [], ◌++◌}
use claude_opus.Errors.{Result, ok, throw}
use claude_opus.Disk.{Os, DiskManager, write_log}
use claude_opus.LogRecord.{LogRecord, header, with_header, serialize}
pub mod Buffer
mod Tests

abbrev pub log_buffer_size : ℕ
log_buffer_size = 1024 * 4096

pub record LogManager : Type 0 where
  pub global_lsn : ℤ
  pub buffer : List ℕ
  pub offset : ℕ
  pub persist_lsn : ℤ
  pub last_lsn_in_buffer : ℤ

unfoldable pub new_log_manager : LogManager
new_log_manager = record {
  global_lsn = pos 0;
  buffer = [];
  offset = 0;
  persist_lsn = negsuc 0;
  last_lsn_in_buffer = negsuc 0;
}

unfoldable pub is_full : LogManager → ℕ → Bool
is_full lm append_size = ltb log_buffer_size (lm.offset + append_size)

module _ {Data : Type 0} (os : Os Data) where
  abbrev pub Logged : Type 0 → Type 0
  Logged A = LogManager × DiskManager os × Result A

  -- What `write_log` leaves: the buffer is emptied only if it did not throw.
  abbrev emptied : LogManager → DiskManager os × Result (Unit {0}) → Logged (Unit {0})
  emptied lm (dm, ok tt) =
      (record lm { buffer = []; offset = 0; persist_lsn = lm.last_lsn_in_buffer }, dm, ok tt)
  emptied lm (dm, throw e) = (lm, dm, throw e)

  unfoldable pub flush_log_to_disk : LogManager → DiskManager os → Logged (Unit {0})
  flush_log_to_disk lm dm =
      if ltb 0 lm.offset then emptied lm (write_log os dm lm.buffer) else (lm, dm, ok tt)

  -- The record gets its number and goes to the buffer.
  unfoldable pub append : LogManager → DiskManager os → LogRecord → Logged ℤ
  append lm dm r =
      let h = header r in
      let numbered = with_header (record h { lsn = lm.global_lsn }) r in
      (
        record lm {
          global_lsn = suc_ℤ lm.global_lsn;
          last_lsn_in_buffer = lm.global_lsn;
          buffer = lm.buffer ++ serialize numbered;
          offset = lm.offset + h.log_tot_len;
        },
        dm,
        ok lm.global_lsn,
      )

  abbrev pub then_append : LogRecord → Logged (Unit {0}) → Logged ℤ
  then_append r (lm, dm, ok tt) = append lm dm r
  then_append r (lm, dm, throw e) = (lm, dm, throw e)

  unfoldable pub add_log_to_buffer : LogManager → DiskManager os → LogRecord → Logged ℤ
  add_log_to_buffer lm dm r =
      let flushed = flush_log_to_disk lm dm in
      if is_full lm (header r).log_tot_len then then_append r flushed else append lm dm r
