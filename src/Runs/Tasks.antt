-- ===== src/Runs/Tasks.antt =====
-- A call of `sync` with one task, from no blocks at all and with the tip at block 5.
use kassandra_service.Common.{
  ◌≡◌, ◌&&◌, ◌||◌, refl, true, false, not, [], ◌∷◌, some, ok, leb, arith,
}
use kassandra_service.Ranges.{first, insert, blocks_left_to_fetch}
use kassandra_service.Ranges.Cover.{covers}
use kassandra_service.Ranges.Left.{within}
use kassandra_service.Fetcher.{
  Fetcher, normal, plan, batches, fetched, task_error, handle_fetched, extend,
  check_exit_conditions,
}
use kassandra_service.Fetcher.Tasks.{
  stops, panics, interrupts, signal, System, calling, finished, proceed, break, looping, synced,
  start, spawn, respond, close, sends, leaves, selects, receives, counts_none, misses, handles,
  closes, task, loop, Moves, here, next,
}
use kassandra_service.Fetcher.Tasks.Tally.{IsTallied}
use kassandra_service.Fetcher.Tasks.Finish.{
  to_tip, start-Moves-IsTallied, sync_proceeds, sync_proceeds_same,
}
use kassandra_service.Fetcher.Run.{Passes, begin, caught_up, synced_up, within_sync, new, save}
use kassandra_service.Fetcher.Run.UpTo.{
  IsUpTo, greatest, up_to, passes_up_to, Passes-IsUpTo, save-Stopped-IsUpTo,
}
use kassandra_service.Fetcher.Tasks.Settled.{sync_settles}
use kassandra_service.Runs.{notes}
use kassandra_service.Runs.Fetching.{new_fetcher, first_blocks, first_block}

abbrev one_task : System notes
one_task = record {
  fetcher = new_fetcher;
  running = (1, 5) ∷ [];
  leaving = 0;
  count = 1;
  channel = [];
  panicked = [];
  stopped = [];
  shutdown = false;
  at = calling;
}

abbrev at_tip : System notes
at_tip = record one_task { fetcher = first_blocks; running = []; count = 0; at = finished proceed }

started : start notes new_fetcher (some 5) ≡ ok (looping one_task)
unfolding start spawn plan batches blocks_left_to_fetch first
started = refl

one_task-at_tip : Moves notes one_task at_tip
unfolding respond close handle_fetched check_exit_conditions insert first extend
one_task-at_tip =
    next
      (next
        (next
          (next
            (next
              (next
                (next
                  (next (next here (omega arith) (loop (selects refl refl))) (omega arith)
                    (task (sends [] [] (fetched 1 5 (34 ∷ [])) refl (omega arith))))
                  (omega arith) (loop (receives (fetched 1 5 (34 ∷ [])) [] refl refl)))
                (omega arith) (loop (handles (fetched 1 5 (34 ∷ [])) _ refl refl)))
              (omega arith) (loop (selects refl refl)))
            (omega arith) (task (leaves 0 refl)))
          (omega arith) (loop (counts_none refl refl)))
        (omega arith) (loop (misses refl refl)))
      (omega arith) (loop (closes refl))

start-Moves-IsTallied_example : IsTallied notes (to_tip notes new_fetcher 1 5) at_tip
start-Moves-IsTallied_example =
    start-Moves-IsTallied notes new_fetcher one_task at_tip 1 5 tt refl refl first_block
      (omega arith) started (omega arith) one_task-at_tip

sync_proceeds_example :
    covers (1 ∷ 5 ∷ []) 4 ≡ (covers [] 4 || (leb 1 4 && leb 4 5)) && not (within [] 4)
sync_proceeds_example =
    sync_proceeds notes new_fetcher one_task at_tip 1 5 tt refl refl first_block (omega arith)
      started (omega arith) one_task-at_tip refl 4

-- With the task that answers first failing once.
one_task-retried-at_tip : Moves notes one_task at_tip
unfolding respond close handle_fetched check_exit_conditions insert first extend
one_task-retried-at_tip =
    next
      (next
        (next
          (next
            (next
              (next
                (next
                  (next
                    (next
                      (next
                        (next
                          (next
                            (next (next here (omega arith) (loop (selects refl refl))) (omega arith)
                              (task (sends [] [] (task_error 1 5) refl (omega arith))))
                            (omega arith) (loop (receives (task_error 1 5) [] refl refl)))
                          (omega arith) (loop (handles (task_error 1 5) _ refl refl)))
                        (omega arith) (loop (selects refl refl)))
                      (omega arith) (task (leaves 0 refl)))
                    (omega arith) (task (sends [] [] (fetched 1 5 (34 ∷ [])) refl (omega arith))))
                  (omega arith) (loop (receives (fetched 1 5 (34 ∷ [])) [] refl refl)))
                (omega arith) (loop (handles (fetched 1 5 (34 ∷ [])) _ refl refl)))
              (omega arith) (loop (selects refl refl)))
            (omega arith) (task (leaves 0 refl)))
          (omega arith) (loop (counts_none refl refl)))
        (omega arith) (loop (misses refl refl)))
      (omega arith) (loop (closes refl))

sync_proceeds_same_example : at_tip.fetcher.fetched ≡ at_tip.fetcher.fetched
sync_proceeds_same_example =
    sync_proceeds_same notes new_fetcher one_task at_tip at_tip 1 5 tt refl refl first_block
      (omega arith) started (omega arith) one_task-at_tip refl one_task-retried-at_tip refl refl

sync_settles_example : start notes at_tip.fetcher (some 5) ≡ ok synced
unfolding covers
sync_settles_example =
    sync_settles notes new_fetcher one_task at_tip 1 5 tt (λ h d. cc) refl refl first_block
      (omega arith) started (omega arith) one_task-at_tip refl refl

-- Two passes of the loop of `run`, the second with nothing to do.
two_passes : Passes notes new_fetcher (5 ∷ 5 ∷ []) [] first_blocks
unfolding start first
two_passes =
    caught_up 5 (synced_up 5 one_task at_tip begin started (omega arith) one_task-at_tip refl refl)
      refl

passes_up_to_example : first_blocks.fetched ≡ up_to (greatest 0 (5 ∷ 5 ∷ []))
passes_up_to_example =
    passes_up_to notes new_fetcher first_blocks 0 (5 ∷ 5 ∷ []) refl (omega arith) refl refl
      (omega arith, (omega arith, tt)) two_passes

nothing-IsUpTo : IsUpTo 0 [] []
unfolding covers
nothing-IsUpTo = (tt, λ h c. cc, λ h one le. absurd (omega (arith, one, le)))

-- A call of `sync` whose only task panics.
abbrev bereft : System notes
bereft = record one_task { running = []; count = 0; panicked = (1, 5) ∷ []; at = finished proceed }

one_task-bereft : Moves notes one_task bereft
unfolding close check_exit_conditions
one_task-bereft =
    next
      (next
        (next
          (next
            (next (next here (omega arith) (loop (selects refl refl))) (omega arith)
              (task (panics [] [] (1, 5) refl)))
            (omega arith) (task (leaves 0 refl)))
          (omega arith) (loop (counts_none refl refl)))
        (omega arith) (loop (misses refl refl)))
      (omega arith) (loop (closes refl))

-- A pass whose task panics, and one that fetches its blocks.
panicked_pass : Passes notes new_fetcher (5 ∷ 5 ∷ []) ((1, 5) ∷ []) first_blocks
panicked_pass =
    synced_up 5 one_task at_tip
      (synced_up 5 one_task bereft begin started (omega arith) one_task-bereft refl refl) started
      (omega arith) one_task-at_tip refl refl

Passes-IsUpTo_example : IsUpTo (greatest 0 (5 ∷ 5 ∷ [])) ((1, 5) ∷ []) first_blocks.fetched
Passes-IsUpTo_example =
    Passes-IsUpTo notes new_fetcher first_blocks 0 (5 ∷ 5 ∷ []) [] ((1, 5) ∷ []) nothing-IsUpTo
      (omega arith) refl refl (omega arith, (omega arith, tt)) panicked_pass

-- A call of `sync` that the shutdown signal ends before its task has fetched anything.
abbrev shut_down : System notes
shut_down = record one_task {
  fetcher = record new_fetcher { interrupt_flag = true };
  running = [];
  count = 0;
  stopped = (1, 5) ∷ [];
  shutdown = true;
  at = finished break;
}

one_task-shut_down : Moves notes one_task shut_down
unfolding close check_exit_conditions
one_task-shut_down =
    next
      (next
        (next
          (next (next here (omega arith) signal) (omega arith)
            (task (stops [] [] (1, 5) refl refl)))
          (omega arith) (task (leaves 0 refl)))
        (omega arith) (loop (interrupts refl refl)))
      (omega arith) (loop (closes refl))

-- Made again from its file, with the rows that were stored meanwhile.
abbrev restarted : Fetcher notes
restarted = record {
  fetched = [];
  conn = record { conn = 34 ∷ []; wal = []; max_wal_size = 10 };
  interrupt_flag = false;
  state = normal;
  synced_to = 1;
}

made_again :
    new notes some (some (save notes (λ l. l) shut_down.fetcher)) (34 ∷ []) 10 ≡ some restarted
unfolding new save
made_again = refl

pass_after : Passes notes restarted (0 ∷ []) [] restarted
unfolding start first
pass_after = caught_up 0 begin refl

save-Stopped-IsUpTo_example :
    IsUpTo (greatest (greatest 0 (5 ∷ [])) (0 ∷ [])) ((1, 5) ∷ []) restarted.fetched
save-Stopped-IsUpTo_example =
    save-Stopped-IsUpTo notes some (λ l. l) (λ l. refl) new_fetcher shut_down.fetcher restarted
      restarted 0 (5 ∷ []) (0 ∷ []) [] ((1, 5) ∷ []) [] (34 ∷ []) 10 nothing-IsUpTo (omega arith)
      refl refl (omega arith, tt)
      (within_sync 5 one_task shut_down begin started (omega arith) one_task-shut_down refl)
      made_again (omega arith, tt) pass_after
