-- ===== src/Tsh/SessionTests.antt =====
-- Sessions of ASSN/ASSN5/tsh.c at concrete inputs, and the theorems at them.
use csed.Prelude.Words.{int_inc, int_lt}
use csed.Prelude.{
  sym, ◌∙◌, ◌≢◌, ℕ, ◌+◌, ◌≡◌, refl, true, false, [], ◌∷◌, arith, replicate, All, All-replicate,
  ◌||◌,
}
use csed.Tsh.Jobs.{
  bg, cleared, Text, Shell, prompted, background, emit, lt_one, find_slot, fill_slot, addjob,
  pid2jid, initjobs, clearjob,
}
use csed.Tsh.Slots.{job_of}
use csed.Tsh.Parse.{
  skip_spaces, break_at, next_arg, split_args, replace_last, take_background, store_args, parseline,
  parsed,
}
use csed.Tsh.Handlers.{running, exited, System}
use csed.Tsh.Signals.{SignalOk}
use csed.Tsh.Foreground.{AtPrompt}
use csed.Tsh.Shell.{
  do_bgfg, text_eq, fg_text, bg_text, all_digits, is_digit, int_of_text, value_from, builtin_cmd,
  launch, eval_args, eval,
}
use csed.Tsh.Main.{
  end_of_file, take_line, Round, deliver, show_prompt, main_loop, stop, read_options, tsh_main,
}
use csed.Tsh.Session.{Reached, begins, next, Promised, session}
use csed.Tsh.ReadLoop.{has_ended, lines_of, Fits, tsh_main-ends}
use csed.Tsh.Errors.{names, complaint, do_bgfg-complaint}

abbrev system : System
system = record { kill_ok = λ pid sig. true; block_ok = true; unblock_ok = true; fork = 116 }

-- A system in which no signal arrives.
abbrev rounds : ℕ → Round
rounds k = record { system = system; at_prompt = []; later = [] }

-- `a &` and the end of the line, then `b` without one.
abbrev input : Text
input = b'a' ∷ b' ' ∷ b'&' ∷ b'\n' ∷ b'b' ∷ []

abbrev start : Shell
start = record { jobs = replicate 16 cleared; nextjid = 1; verbose = false; effects = [] }

abbrev command : Text
command = b'a' ∷ b' ' ∷ b'&' ∷ b'\n' ∷ []

abbrev launched : Shell
launched = record {
  jobs = record { pid = 116; jid = 1; state = bg; cmdline = command } ∷ replicate 15 cleared;
  nextjid = 2;
  verbose = false;
  effects = background 1 116 command ∷ prompted ∷ [];
}

program : Unit {0}
unfolding skip_spaces break_at next_arg split_args replace_last take_background store_args parseline
    lt_one find_slot fill_slot addjob pid2jid int_inc int_lt emit text_eq builtin_cmd launch
    eval_args eval take_line deliver show_prompt job_of
program = tt

input_line : (take_line 1023 input) ≡ (command, b'b' ∷ [], false)
unfolding program
input_line = refl

promised :
    Promised rounds true end_of_file false input
      (rounds 0)
      (record start { effects = prompted ∷ [] })
unfolding program
promised = record {
  at_prompt_ok = tt;
  later_ok = tt;
  fork_ok = (omega arith, omega arith);
  fork_new = refl;
  jid_small = omega arith;
}

one_round : Reached rounds true end_of_file false input 1 (b'b' ∷ []) [] launched
unfolding program
one_round =
    next 0 input [] [] start (record start { effects = prompted ∷ [] }) launched begins refl refl
      promised refl

session_example :
    (AtPrompt launched × All SignalOk [])
    × ((fuel : ℕ)
        → main_loop rounds true end_of_file (1 + fuel) 0 input [] start
          ≡ main_loop rounds true end_of_file fuel 1 (b'b' ∷ []) [] launched)
session_example = session rounds true end_of_file false input one_round

command_parsed : parseline command ≡ parsed true ((b'a' ∷ []) ∷ [])
unfolding program
command_parsed = refl

command-Fits : Fits command
command-Fits e = let same = sym command_parsed ∙ e in cc

input-Fits : All Fits (lines_of 6 input)
unfolding program lines_of
input-Fits = (command-Fits, tt)

tsh_main-ends_example : has_ended (tsh_main rounds true [] end_of_file 6 input start) ≡ true
tsh_main-ends_example =
    tsh_main-ends rounds true [] end_of_file 6 input start (omega arith) input-Fits

-- The command that no newline ends is not run: the shell has started the job `a` alone.
unterminated :
    tsh_main rounds true (b'v' ∷ []) end_of_file 6 (b'b' ∷ []) start
    ≡ exited 0 (record start { verbose = true; effects = prompted ∷ [] })
unfolding program tsh_main main_loop stop read_options initjobs clearjob
unterminated = refl

-- No job has the id 0, which a free slot has.
names_none : All (λ x. x.pid ≢ 0 → names (b'%' ∷ b'0' ∷ []) x ≡ false) launched.jobs
unfolding names all_digits is_digit int_of_text value_from
names_none = (
  λ live. refl,
  All-replicate (λ x. x.pid ≢ 0 → names (b'%' ∷ b'0' ∷ []) x ≡ false) 15 cleared
      (λ live. absurd (live refl)),
)

fg_text-eq : (text_eq fg_text fg_text || text_eq fg_text bg_text) ≡ true
unfolding text_eq
fg_text-eq = refl

do_bgfg-complaint_example :
    do_bgfg system (fg_text ∷ (b'%' ∷ b'0' ∷ []) ∷ []) [] launched
    ≡ running (emit (complaint fg_text (b'%' ∷ b'0' ∷ [])) launched, [])
do_bgfg-complaint_example =
    do_bgfg-complaint system fg_text (b'%' ∷ b'0' ∷ []) [] [] launched fg_text-eq
      (session rounds true end_of_file false input one_round).0.0.well names_none
