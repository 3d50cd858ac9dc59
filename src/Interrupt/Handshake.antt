-- ===== src/Interrupt/Handshake.antt =====
-- inthandler and waitforio of nucleus/interrupts/int.c: an interrupt that comes before the wait.
use hoca_operating_system.Prelude.{
  ℕ, suc, ◌+◌, ◌<◌, ◌≡◌, refl, false, pos, arith, ==_self, same_int, bits, update,
}
use hoca_operating_system.Machine.{Addr, set_reg}
use hoca_operating_system.Run.{Returns, returns, ◌>>◌, ok}
use hoca_operating_system.Kernel.{Kernel, dev_sem, write_word, write_state, modify_entry}
use hoca_operating_system.Kernel.Running.{Running, current-Running}
use hoca_operating_system.Interrupt.{int_handler, wait_for_io, first_dev, int_sem_op, save_state}

-- What the wait leaves: the device's answer in registers 2 and 3 of the caller, its semaphore at 0.
pub record Answered (old : Addr) (d : ℕ) (k t : Kernel) : Type 0 where
  pub registers :
      t.states old ≡ set_reg (set_reg (k.states old) 2 (k.dev d).d_dadd) 3 (k.dev d).d_stat
  pub semaphore : t.sems.words (dev_sem d) ≡ pos 0
  pub ready : t.running_queue ≡ k.running_queue
  pub same_table : t.sems.procs ≡ k.sems.procs

-- The answer of device `d` is kept, and its semaphore counts it.
keep_answer : ℕ → Kernel → Kernel
keep_answer d k =
    let j = write_word (dev_sem d) (pos 1) k in
    record j {
      save_arr = update j.save_arr d (record { amnt = (j.dev d).d_dadd; stat = (j.dev d).d_stat });
    }

int_handler-keep :
    (type n : ℕ) (k : Kernel)
    → k.sems.words (dev_sem (first_dev type + n)) ≡ pos 0
    → int_handler type n k ≡ ok tt (keep_answer (first_dev type + n) k)
unfolding int_handler keep_answer
int_handler-keep type n k zero = rw (int_handler, zero) refl

-- The caller gets the answer that is kept, and does not wait.
take_answer : Addr → ℕ → Kernel → Kernel
take_answer old d k =
    let j = write_word (dev_sem d) (pos 0) k in
    write_state old (set_reg (set_reg (j.states old) 2 (j.save_arr d).amnt) 3 (j.save_arr d).stat) j

wait_for_io-take :
    (d : ℕ) (old : Addr) (k : Kernel)
    → d < 15
    → (k.states old).s_r 4 ≡ pos d
    → k.sems.words (dev_sem d) ≡ pos 1
    → wait_for_io old k ≡ ok tt (take_answer old d k)
unfolding wait_for_io take_answer
wait_for_io-take d old k small reg one =
    let e : bits (pos d) ≡ d = omega arith in rw (wait_for_io, reg, e, one) refl

-- When no process waits for a device and its semaphore is 0, an interrupt of the device followed by
-- SYS8 for it answers at once: the caller gets the amount and the status that the device had at
-- the interrupt, the semaphore is 0 again, and the running queue and the process table are as
-- before.
pub int_handler-wait_for_io :
    (type n : ℕ) (old : Addr) (k : Kernel)
    → first_dev type + n < 15
    → k.sems.words (dev_sem (first_dev type + n)) ≡ pos 0
    → (k.states old).s_r 4 ≡ pos (first_dev type + n)
    → Returns (λ _. Answered old (first_dev type + n) k) ((int_handler type n >> wait_for_io old) k)
unfolding keep_answer take_answer
int_handler-wait_for_io type n old k small zero reg =
    let d = first_dev type + n in
    rw
      (
        int_handler-keep type n k zero,
        wait_for_io-take d old (keep_answer d k) small reg (rw (==_self (dev_sem d)) refl),
      )
      (returns (record {
        registers = rw (==_self old) (rw (==_self d) refl);
        semaphore = rw (==_self (dev_sem d)) refl;
        ready = refl;
        same_table = refl;
      }))

-- When two or more interrupts of a device came before the running process does SYS8 for it, SYS8
-- returns without waiting and
-- counts one of them, but the caller's registers 2 and 3 do not get the device's answer: its
-- state is as it was.
pub wait_for_io-late :
    (d m p : ℕ) (old : Addr) (k : Kernel)
    → d < 15
    → (k.states old).s_r 4 ≡ pos d
    → k.sems.words (dev_sem d) ≡ pos (suc (suc m))
    → Running p k
    → Returns
        (λ _ t. (t.states ≡ k.states) × (t.sems.words (dev_sem d) ≡ pos (suc m)))
        (wait_for_io old k)
unfolding wait_for_io int_sem_op save_state modify_entry
wait_for_io-late d m p old k small reg many running =
    let e : bits (pos d) ≡ d = omega arith in
    let two : same_int (pos (suc (suc m))) (pos 1) ≡ false = ground arith in
    rw (wait_for_io, reg, e, many, two, current-Running running, many)
      (returns (refl, rw (==_self (dev_sem d)) refl))
