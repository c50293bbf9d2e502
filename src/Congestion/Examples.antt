-- ===== src/Congestion/Examples.antt =====
-- A connection with packets of 1200 bytes under both controllers.
use zngtcp.Base.{
  ◌+◌, ◌*◌, ◌^◌, ◌≤◌, ◌<◌, ◌≡◌, refl, List, [], ◌∷◌, true, false, ok, ◌>>=◌, length, arith,
}
use zngtcp.Congestion.{ConnStat, Ack, Pkt, uint64_max, in_congestion_recovery}
use zngtcp.Congestion.CubeRoot.{cbrt, cube, cbrt-IsRoot, cbrt_loop, cbrt_round, next_cube}
use zngtcp.Congestion.Reno.{Reno, reno_init}
use zngtcp.Congestion.Reno.Run.{run-reno_init}
use zngtcp.Congestion.Reno.Run.Steps.{Event, run, IsSound}
use zngtcp.Congestion.Cubic.{Cubic, no_undo, vars_reset}
use zngtcp.Congestion.Cubic.Growth.{on_ack_recv}
use zngtcp.Congestion.Cubic.Congested.{congestion_event}
use zngtcp.Congestion.Cubic.Loss.{IsOpen, IsReduced, congestion_event-IsReduced}
use zngtcp.Congestion.Cubic.Run.{on_ack_recv-IsAcked}
use zngtcp.Congestion.Cubic.Run.Steps.{IsAcked}

abbrev start_stat : ConnStat
start_stat = record {
  smoothed_rtt = 50000000;
  first_rtt_sample_ts = 7;
  cwnd = 12000;
  ssthresh = uint64_max;
  congestion_recovery_start_ts = uint64_max;
  bytes_in_flight = 6000;
  max_tx_udp_payload_size = 1200;
  pacing_interval_m = 0;
  send_quantum = 0;
}

cbrt_million : cbrt 1000000 ≡ 100
unfolding cbrt cbrt_loop cbrt_round next_cube
cbrt_million = refl

cbrt-IsRoot_example : (cube (cbrt 1000001) ≤ 1000001) × (1000001 < cube (cbrt 1000001 + 1))
cbrt-IsRoot_example = cbrt-IsRoot 1000001 (omega arith)

abbrev packet : Pkt
packet = record { pktlen = 1200; sent_ts = 20; is_app_limited = false }

abbrev events : List Event
events =
    Event.acked packet
    ∷ Event.congestion 15 40
    ∷ Event.acked (record packet { sent_ts = 50 })
    ∷ Event.persistent_congestion
    ∷ Event.reset
    ∷ []

run-reno_init_example :
    (r : Reno) × ((reno_init start_stat >>= λ start. run start events) ≡ ok r)
    × IsSound 1200 (2 ^ 20 + 2 ^ 33 * length events) r
run-reno_init_example =
    run-reno_init start_stat events (omega arith) (omega arith)
      (unfold zngtcp.Congestion.compute_initcwnd in refl) (omega arith) (omega arith)
      (omega arith, (tt, (omega arith, (tt, (tt, tt)))))

abbrev cubic : Cubic
cubic = record {
  rst = record {
    rs_delivered = 12000;
    rs_is_app_limited = false;
    delivered = 50000;
    is_cwnd_limited = true;
  };
  current = record vars_reset { w_max = 20000; w_est = 12000 };
  undo = no_undo;
  hs = record {
    current_round_min_rtt = uint64_max;
    last_round_min_rtt = uint64_max;
    curr_rtt = uint64_max;
    rtt_sample_count = 0;
    css_baseline_min_rtt = uint64_max;
    css_round = 0;
  };
  next_round_delivered = 0;
  cstat = start_stat;
}

abbrev ack : Ack
ack = record {
  bytes_delivered = 2400;
  bytes_lost = 1200;
  pkt_delivered = 0;
  largest_pkt_sent_ts = 30;
  rtt = 50000000;
}

cubic-IsOpen : IsOpen cubic 30
unfolding in_congestion_recovery
cubic-IsOpen = record {
  mss_pos = omega arith;
  mss_max = omega arith;
  window = omega arith;
  window_max = omega arith;
  counted = refl;
}

congestion_event-IsReduced_example :
    (t : Cubic) × (congestion_event cubic 30 ack 60 ≡ ok t) × IsReduced cubic t 60
congestion_event-IsReduced_example = congestion_event-IsReduced cubic 30 ack 60 cubic-IsOpen

on_ack_recv-IsAcked_example :
    (t : Cubic) × (on_ack_recv
        (record cubic { cstat = record start_stat { ssthresh = 9000 } })
        ack
        60
      ≡ ok t)
    × IsAcked (record start_stat { ssthresh = 9000 }) ack t
on_ack_recv-IsAcked_example =
    on_ack_recv-IsAcked (record cubic { cstat = record start_stat { ssthresh = 9000 } }) ack 60
      (omega arith) (omega arith) (omega arith) (omega arith)
