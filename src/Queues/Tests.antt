-- ===== src/Queues/Tests.antt =====
-- The theorems of the queues at a partitioned queue of two memory queues.
use skywalking_satellite.Config.Common.{propagate_common_fields, PluginConfig, text}
use skywalking_satellite.Queues.Partition.Initialize
use skywalking_satellite.Queues.Partition.Initialize.{name_field}
use skywalking_satellite.Base.{
  ◌∙◌, sym, ℕ, ◌≤◌, ◌<◌, ◌≡◌, ◌≢◌, ◌⊎◌, refl, ap, true, false, Bool, none, some, Option, List, [],
  ◌∷◌, ◌++◌, length, ltb, arith, if◌then◌else◌, ◌∙◌, sym, text_eq,
}
use skywalking_satellite.Queues.Api.{err_full, ok, err, SequenceEvent}
use skywalking_satellite.Queues.Memory.{
  FixedFifo, MemoryQueue, default_offset, memory_queue, dequeue, is_full,
}
use skywalking_satellite.Queues.Partition.{PartitionedQueue, find_partition, ack}
use skywalking_satellite.Queues.Partition
use skywalking_satellite.Queues.Partition.Route.{WentTo, enqueue-WentTo, ack-dequeue}

-- a buffer of two places, as a list
abbrev pub push : ℕ → List ℕ → Bool × List ℕ
push e xs = if ltb (length xs) 2 then (true, xs ++ (e ∷ [])) else (false, xs)

abbrev pub pop : List ℕ → Option ℕ × List ℕ
pop [] = (none, [])
pop (x ∷ xs) = (some x, xs)

abbrev pub size_of : List ℕ → ℕ
size_of xs = 2

pub push_full : (e : ℕ) (xs : List ℕ) → 2 ≤ length xs → push e xs ≡ (false, xs)
push_full e xs h = let no : ltb (length xs) 2 ≡ false = ground arith in rw no refl

pub push_free :
    (e : ℕ) (xs : List ℕ)
    → length xs < 2
    → ((push e xs).0 ≡ true)
      × ((push e xs).1 ≡ xs ++ (e ∷ []))
      × (size_of (push e xs).1 ≡ size_of xs)
push_free e xs h =
    let there : ltb (length xs) 2 ≡ true = ground arith in rw there (refl, refl, refl)

abbrev pub fifo : FixedFifo ℕ
fifo = record {
  Fifo = List ℕ;
  contents = λ xs. xs;
  enqueue = push;
  dequeue = pop;
  get_len = λ xs. length xs;
  get_cap = size_of;
  enqueue_full = push_full;
  enqueue_free = push_free;
  dequeue_empty = λ f e. ap pop e ∙ ap (λ x. (none, x)) (sym e);
  dequeue_first = λ e es f h. (ap (λ x. (pop x).0) h, ap (λ x. (pop x).1) h, refl);
  get_len_contents = λ f. refl;
}

abbrev empty_one : MemoryQueue (List ℕ)
empty_one = record { event_buffer_size = 2; buffer = [] }

abbrev pub with_one : MemoryQueue (List ℕ)
with_one = record { event_buffer_size = 2; buffer = 7 ∷ [] }

abbrev pub parted : PartitionedQueue (MemoryQueue (List ℕ))
parted = record { partition = 2; sub_queues = λ i. with_one; load_balancer_index = 0 }

enqueue-WentTo_example :
    ((i : ℕ) × WentTo
        (memory_queue fifo)
        i
        5
        parted
        (Partition.enqueue (memory_queue fifo) 5 parted).0
        (Partition.enqueue (memory_queue fifo) 5 parted).1)
    ⊎ (((Partition.enqueue (memory_queue fifo) 5 parted).0 ≡ err err_full)
        × ((Partition.enqueue (memory_queue fifo) 5 parted).1.sub_queues ≡ parted.sub_queues)
        × ((i : ℕ) → i < 2 → is_full fifo (parted.sub_queues i) ≡ true))
enqueue-WentTo_example = enqueue-WentTo (memory_queue fifo) 5 parted (omega arith) (omega arith)

abbrev given : SequenceEvent ℕ
given = record { event = 7; offset = record default_offset { partition = 1 } }

given_first : (Partition.dequeue (memory_queue fifo) 1 parted).0 ≡ ok given
unfolding Partition.dequeue dequeue
given_first = refl

ack-dequeue_example :
    ((ack
          (memory_queue fifo)
          given.offset
          (Partition.dequeue (memory_queue fifo) 1 parted).1).sub_queues
        1
      ≡ (dequeue fifo with_one).1)
    × ((j : ℕ)
        → j ≢ 1
        → (ack
              (memory_queue fifo)
              given.offset
              (Partition.dequeue (memory_queue fifo) 1 parted).1).sub_queues
            j
          ≡ with_one)
ack-dequeue_example = ack-dequeue (memory_queue fifo) 1 parted given given_first

-- A configuration with the name of the plugin and nothing else.
abbrev pub memory_config : PluginConfig
memory_config = λ key. if text_eq name_field key then some (text (109 ∷ [])) else none

-- Two partitions of the only queue that is registered; the states are numbers.
initialize-AllTheSame_example :
    Initialize.AllTheSame {State = ℕ} {World = ℕ}
      (λ n. [])
      (text_eq (109 ∷ []))
      (λ plugin c. some [])
      (λ plugin c. 0)
      (λ t s w. (true, (s, w)))
      (λ s. 1)
      (λ t qs w. w)
      2
      (112 ∷ [])
      (Initialize.initialize {State = ℕ} {World = ℕ}
        (λ n. [])
        (text_eq (109 ∷ []))
        (λ plugin c. some [])
        (λ plugin c. 0)
        (λ t s w. (true, (s, w)))
        (λ s. 1)
        (λ t qs w. w)
        2
        (112 ∷ [])
        (propagate_common_fields (record { pipe_name = 112 ∷ [] }) memory_config)
        0)
unfolding skywalking_satellite.Base.list_eq
initialize-AllTheSame_example =
    Initialize.initialize-AllTheSame {State = ℕ} {World = ℕ} (λ n. []) (text_eq (109 ∷ []))
      (λ plugin c. some []) (λ plugin c. 0) (λ t s w. (true, (s, w))) (λ s. 1) (λ t qs w. w) 2
      (record { pipe_name = 112 ∷ [] }) (112 ∷ []) (109 ∷ []) memory_config 0 refl refl
      (λ config name own same e o. ([], refl))
