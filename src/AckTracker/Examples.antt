-- ===== src/AckTracker/Examples.antt =====
-- Tests of lib/ngtcp2_acktr.c, and instances of the theorems
use zngtcp.Base.{ℕ, ◌≡◌, refl, ◌⊎◌, [], ◌∷◌, none, some, true, ok, false, take, All, arith, ◌>>=◌}
use zngtcp.Frame.{Ack}
use zngtcp.AckTracker.{
  AckTracker, acktr_init, acktr_recv_ack, above, trim_last, on_ack, sent_before, match_ranges,
  acked_index,
}
use zngtcp.AckTracker.Frames.{create_ack_frame, require_active_ack, tstamp_elapsed}
use zngtcp.AckTracker.Acknowledged.{acknowledged}
use zngtcp.AckTracker.Insert.{acktr_add, add_ents, add_front, add_last, add_between, within_max}
use zngtcp.AckTracker.Add.{IsAdded, acktr_add-IsAdded}
use zngtcp.AckTracker.Create.{IsFrame, create_ack_frame-IsFrame}
use zngtcp.AckTracker.Reach.{Reachable, initially, after, add, reachable-IsTracker}
use zngtcp.AckTracker.Remove.{IsPruned, Acked, acktr_recv_ack-IsPruned}
use zngtcp.AckTracker.Tracked.{tracked, IsTracker}

-- Packets 5 and 6, then 9; the ACKs were sent in the packets 4 and 3.
abbrev tracker : AckTracker
tracker = record acktr_init {
  acks = record { largest_ack = 6; pkt_num = 4 } ∷ record { largest_ack = 5; pkt_num = 3 } ∷ [];
  ents =
      record { pkt_num = 9; len = 1; tstamp = 30 }
      ∷ record { pkt_num = 6; len = 2; tstamp = 20 }
      ∷ [];
  first_unacked_ts = 20;
  max_pkt_num = some 9;
  max_pkt_ts = 30;
  active_ack = true;
}

tracker-IsTracker : IsTracker tracker
tracker-IsTracker = record { ranges = ground arith; few = ground arith }

three_added :
    (do
      t ← acktr_add acktr_init 5 true 20
      t ← acktr_add t 6 true 20
      t ← acktr_add t 9 true 30
      ok t)
    ≡ ok (record tracker { acks = [] })
unfolding acktr_add add_ents add_front add_last add_between within_max
three_added = refl

acktr_add-IsAdded_example :
    (t' : AckTracker) × (acktr_add tracker 8 true 40 ≡ ok t') × IsAdded 8 tracker t'
unfolding tracked
acktr_add-IsAdded_example = acktr_add-IsAdded tracker 8 true 40 tracker-IsTracker refl

-- The packet 3 is acknowledged, and no other.
abbrev of_3 : Ack
of_3 = record {
  largest_ack = 3;
  ack_delay = 0;
  ack_delay_unscaled = 0;
  ecn = none;
  first_ack_range = 0;
  ranges = [];
}

of_3_received :
    acktr_recv_ack tracker of_3
    ≡ ok (record tracker {
      acks = record { largest_ack = 6; pkt_num = 4 } ∷ [];
      ents =
          record { pkt_num = 9; len = 1; tstamp = 30 }
          ∷ record { pkt_num = 6; len = 1; tstamp = 20 }
          ∷ [];
    })
unfolding acktr_recv_ack acked_index sent_before match_ranges on_ack above trim_last
of_3_received = refl

acktr_recv_ack-IsPruned_example :
    (t' : AckTracker) × (acktr_recv_ack tracker of_3 ≡ ok t')
    × (((t' ≡ tracker) × All (λ a. acknowledged a.pkt_num of_3 ≡ false) tracker.acks)
        ⊎ ((floor : ℕ) × (j : ℕ) × Acked of_3 tracker.acks floor j
            × IsPruned floor tracker t'
            × (t'.acks ≡ take j tracker.acks)))
acktr_recv_ack-IsPruned_example =
    acktr_recv_ack-IsPruned tracker of_3 tracker-IsTracker ((omega arith, tt), (tt, tt))

create_ack_frame-IsFrame_example :
    (fr : Ack) × (create_ack_frame tracker true 50 25 0 ≡ ok (some fr, tracker))
    × (some 9 ≡ some fr.largest_ack)
    × IsFrame fr.largest_ack tracker.ents fr
unfolding require_active_ack tstamp_elapsed
create_ack_frame-IsFrame_example =
    create_ack_frame-IsFrame tracker true 50 25 0 (record { pkt_num = 9; len = 1; tstamp = 30 })
      (record { pkt_num = 6; len = 2; tstamp = 20 } ∷ []) tracker-IsTracker refl refl

abbrev one_added : AckTracker
one_added = record acktr_init {
  ents = record { pkt_num = 5; len = 1; tstamp = 20 } ∷ [];
  first_unacked_ts = 20;
  max_pkt_num = some 5;
  max_pkt_ts = 20;
  active_ack = true;
}

one_added-Reachable : Reachable one_added
unfolding acktr_add add_ents within_max tracked
one_added-Reachable = after initially (add 5 true 20 refl refl)

reachable-IsTracker_example : IsTracker one_added
reachable-IsTracker_example = reachable-IsTracker one_added one_added-Reachable
