-- ===== src/Tests/Context.antt =====
-- Contexts of src/libusby.c: with the head 7 and nothing else, and with the device 8 held.
use libusby.Base.{ℕ, ◌≡◌, refl, arith, true, false, [], fault, ltb, Allocator}
use libusby.Devices.Ring.{init_devlist_head}
use libusby.Devices.Ring.Order.{init_devlist_head-IsRing}
use libusby.Handles.{Store}
use libusby.Handles.Counting.{more, Counted}
use libusby.Context.{Process, init_context, exit_context}
use libusby.Context.Windows
use libusby.Context.Linux
use libusby.Context.Pairs.{Paired, init_context-exit_context, init_context-exit_context_linux}
use libusby.Context.Held.{exit_context-held}
use libusby.Tests.Devices.{fresh, one_node}
use libusby.Tests.Handles.{idle, enumerated, enumerated-Counted}

-- A process without handles, and the third call fails.
abbrev started : Process
started = record {
  links = fresh;
  handles = record { calls = 0; live = 0 };
  heap = record { calls = 0; live = 0 };
}

abbrev but_third : Allocator
but_third n = ltb n 2

init_context-exit_context_example :
    Paired
      (exit_context (Windows.exit 7))
      started
      (init_context (Windows.init 7 but_third) but_third started)
init_context-exit_context_example = init_context-exit_context 7 but_third but_third started

init_context-exit_context_linux_example :
    Paired
      (exit_context (Linux.exit 7 false))
      started
      (init_context (Linux.init 7 but_third) but_third started)
init_context-exit_context_linux_example =
    init_context-exit_context_linux 7 but_third but_third started refl refl

abbrev holding : Process
holding = record {
  links = one_node;
  handles = record { calls = 4; live = 4 };
  heap = record { calls = 1; live = 1 };
}

exit_context-held_example :
    (exit_context (Linux.exit 7 true) holding ≡ fault)
    × (exit_context (Windows.exit 7) holding ≡ fault)
exit_context-held_example =
    exit_context-held 7 enumerated (more 8 idle) enumerated-Counted holding refl 8 true
      (omega arith)

-- The ring without devices.
abbrev empty : Store ℕ
empty = record enumerated { links = init_devlist_head 7 fresh }

empty-Counted : Counted 7 empty idle
empty-Counted = record {
  nodes = [];
  ring = init_devlist_head-IsRing 7 fresh;
  listed = λ dev. refl;
  kept = λ dev h. ground arith;
}

abbrev unused : Process
unused = record holding { links = init_devlist_head 7 fresh }
