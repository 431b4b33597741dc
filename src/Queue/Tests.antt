-- ===== src/Queue/Tests.antt =====
-- A full queue of eight nodes, on which the theorems on queue.c are tried.
use aar.Base.{refl, true, false, arith, ◌==◌, if◌then◌else◌}
use aar.Base.Int.{pos, negsuc}
use aar.Queue.{Queue, queue_push, queue_pop}
use aar.Queue.Api.{WellFormed, Pushes, queue_push-Pushes, Pops, queue_pop-Pops}

abbrev some_queue : Queue
some_queue = record {
  root = λ i. if i == 0 then pos 9 else if i == 1 then pos 7 else negsuc 2;
  next = 8;
  count = 8;
  size = 8;
  locked = false;
}

some_queue-WellFormed : WellFormed some_queue
some_queue-WellFormed = record {
  next = refl;
  fits = omega arith;
  room = omega arith;
  heap = λ j p l. ground arith;
  unlocked = refl;
}

queue_push-Pushes_example :
    Pushes (λ n. true) (pos 8) some_queue (queue_push (λ n. true) (pos 8) some_queue)
queue_push-Pushes_example =
    queue_push-Pushes (λ n. true) (pos 8) some_queue (omega arith) some_queue-WellFormed

queue_pop-Pops_example : Pops some_queue (queue_pop some_queue)
queue_pop-Pops_example = queue_pop-Pops some_queue some_queue-WellFormed
