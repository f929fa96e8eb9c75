-- ===== src/RemotePress/Examples.antt =====
-- The volume key is held for two commands, and released while a third is due.
use friendly_ai_explorer.Common.{◌≡◌, refl, true, List, [], ◌∷◌, ◌++◌}
use friendly_ai_explorer.RemotePress.Keys.{
  volume_up, key_code, command_of, remote_command, is_repeatable,
}
use friendly_ai_explorer.RemotePress.Control.{
  clear_timeout, stop, is_held, transmit_bytes, transmit, start_with, start, repeat, schedule,
  fire_timer, fire, end_flight, finish, RemoteEvent, starts, fires, finishes, stops, react,
  react_all, controller,
}
use friendly_ai_explorer.RemotePress.Held.{AtMostOne}
use friendly_ai_explorer.RemotePress.Single.{react_all-AtMostOne}
use friendly_ai_explorer.RemotePress.Released.{react_all_released}

abbrev held_twice : List RemoteEvent
held_twice = starts true volume_up ∷ finishes 0 true ∷ fires 0 true ∷ finishes 0 true ∷ []

held_twice-transmitted :
    (react_all held_twice controller).transmitted
    ≡ (0xfa ∷ 0xf1 ∷ 0x08 ∷ 0xf7 ∷ 0x58 ∷ []) ∷ (0xfa ∷ 0xf1 ∷ 0x08 ∷ 0xf7 ∷ 0x58 ∷ []) ∷ []
unfolding key_code command_of remote_command is_repeatable clear_timeout stop is_held transmit_bytes
    transmit start_with start repeat schedule fire_timer fire end_flight finish react react_all
    controller
held_twice-transmitted = refl

react_all-AtMostOne_example :
    AtMostOne
      (react_all held_twice controller).held
      (react_all held_twice controller).flights
      (react_all held_twice controller).pending
react_all-AtMostOne_example = react_all-AtMostOne held_twice

react_all_released_example :
    (react_all (held_twice ++ (stops ∷ fires 0 true ∷ [])) controller).transmitted
    ≡ (react_all held_twice controller).transmitted
react_all_released_example = react_all_released held_twice (fires 0 true ∷ []) (tt, tt)
