-- ===== src/Dup/Tests.antt =====
-- dup-dup2-example.cpp with concrete answers.
use mathlib.Core.Path.{subst}
use everyday_coding.Base.{
  sym, ◌∙◌, ◌≡◌, refl, false, none, some, ◌++◌, [], ◌==◌, if◌then◌else◌, arith,
}
use everyday_coding.CString.{bytes}
use everyday_coding.Dup.{
  file_of, terminal, Files, Replies, in_the_file, buf, dup, dup2, write_fd, printf, dup2_test, main,
}
use everyday_coding.Dup.Written.{IsWritten, main-Written}

abbrev start : Files
start = record {
  fds = λ fd. if fd == 1 then some terminal else none;
  in_file = bytes "x";
  on_terminal = [];
}

abbrev answers : Replies
answers = record {
  open_answer = some 3;
  dup_answer = some 4;
  dup2_fails = false;
  accepts = λ call size. size;
}

all_written : (main answers start).in_file ≡ bytes "x" ++ buf ++ buf ++ in_the_file
unfolding main dup dup2 write_fd printf dup2_test
all_written = refl

main-Written_example : IsWritten answers start (main answers start)
main-Written_example =
    main-Written answers start refl (record { whole = λ call size. refl })
      (record {
        opened = λ fd e. subst (λ o. file_of start o ≡ none) e refl;
        copied = λ fd e. subst (λ o. file_of start o ≡ none) e refl;
        apart = λ fd e e'. let same = e ∙ sym e' in absurd (ground arith);
      })
