-- ===== src/AdbShell/Examples.antt =====
-- A short session: output, output, exit, cut in the middle of a header.
use friendly_ai_explorer.Common.{length, Bytes, ◌<◌, ◌≡◌, refl, List, [], ◌∷◌, arith, flatten}
use friendly_ai_explorer.AdbShell.{
  shell_packet, output, exit, next_frame, drain, pushed, failed, emit, event, append_events, push,
  push_all,
}
use friendly_ai_explorer.AdbShell.Stream.{
  ShellFrame, stdout, stderr, exits, resume, push-append, push_all-packets, push-short,
}

abbrev session : List ShellFrame
session = stdout (104 ∷ 105 ∷ []) ∷ stderr (33 ∷ []) ∷ exits (0 ∷ []) ∷ []

abbrev chunks : List Bytes
chunks =
    (1 ∷ 2 ∷ 0 ∷ [])
    ∷ (0 ∷ 0 ∷ 104 ∷ 105 ∷ 2 ∷ 1 ∷ 0 ∷ 0 ∷ 0 ∷ 33 ∷ 3 ∷ [])
    ∷ (1 ∷ 0 ∷ 0 ∷ 0 ∷ 0 ∷ [])
    ∷ []

decoded : push_all [] chunks ≡ pushed (output (104 ∷ 105 ∷ []) ∷ output (33 ∷ []) ∷ exit ∷ []) []
unfolding push_all push drain next_frame event emit append_events
decoded = refl

refused : push [] (9 ∷ 0 ∷ 0 ∷ 0 ∷ 0 ∷ []) ≡ failed []
unfolding push drain next_frame
refused = refl

push_all-packets_example :
    push_all [] chunks ≡ pushed (output (104 ∷ 105 ∷ []) ∷ output (33 ∷ []) ∷ exit ∷ []) []
unfolding flatten shell_packet
push_all-packets_example =
    push_all-packets session chunks (omega arith, (omega arith, (omega arith, tt))) refl

push-append_example :
    push (1 ∷ []) (2 ∷ 0 ∷ 0 ∷ 0 ∷ 7 ∷ 8 ∷ 1 ∷ [])
    ≡ resume (push (1 ∷ []) (2 ∷ 0 ∷ 0 ∷ [])) (0 ∷ 7 ∷ 8 ∷ 1 ∷ [])
push-append_example = push-append (1 ∷ []) (2 ∷ 0 ∷ 0 ∷ []) (0 ∷ 7 ∷ 8 ∷ 1 ∷ [])

kept : push [] (1 ∷ 2 ∷ 0 ∷ []) ≡ pushed [] (1 ∷ 2 ∷ 0 ∷ [])
unfolding push drain next_frame
kept = refl

abbrev half_header : Bytes
half_header = 1 ∷ 2 ∷ 0 ∷ []

push-short_example : length half_header < 1048581
push-short_example = push-short [] half_header kept
