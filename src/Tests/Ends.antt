-- ===== src/Tests/Ends.antt =====
-- Both sides of a whole test, at what Tests.Session says.
use netperf.Prelude.{refl, true, false, [], ◌∷◌, ◌++◌, arith}
use netperf.P2.Data.{from_opts, default_block_size}
use netperf.P2.Controller.Loop.{from_server}
use netperf.P2.Controller.Completes.{notices}
use netperf.P2.Controller.Gathering.{connections}
use netperf.P2.Session.{run_client, serve}
use netperf.P2.Session.Ends.{End, run_client-serve}
use netperf.P2.Session.Sums.{PrintSameSums, print_results-PrintSameSums}
use netperf.Tests.Network.{wires_Duplex}
use netperf.Tests.Session.{
  from_server_side, from_client_side, wire, net, opts, server_results, client_results, script, ref,
  server_order, server_streams, greeted_socket, client_streams,
}

whole_test :
    End net wires_Duplex
      (from_opts "0.1" opts default_block_size)
      (wire [] ∷ wire [] ∷ [])
      (greeted_socket ∷ greeted_socket ∷ [])
      from_server_side
      from_client_side
      (9 ∷ [])
      (8 ∷ [])
      server_results
      client_results
      (serve net false
        (wire (from_client_side ++ 9 ∷ []))
        6
        (connections net (wire [] ∷ wire [] ∷ []) ++ notices net server_order))
      (run_client net "127.0.0.1:7559" "secret" "0.1" opts 5
        (from_server ∷ from_server ∷ (notices net ((1, ref true 1) ∷ []) ++ from_server ∷ [])))
unfolding script
whole_test =
    run_client-serve net wires_Duplex "secret" "127.0.0.1:7559" "0.1" opts server_results
      client_results script (9 ∷ []) (8 ∷ []) (wire (from_client_side ++ 9 ∷ []))
      (wire (from_server_side ++ 8 ∷ [])) (wire []) (wire [] ∷ [])
      (greeted_socket ∷ greeted_socket ∷ []) server_order ((1, ref true 1) ∷ [])
      ((0, ref true 0) ∷ []) 6 5 (omega arith) (omega arith) refl
      (record { reading = tt; writing = tt; sent_so_far = refl; to_come = refl })
      (record { reading = tt; writing = tt; sent_so_far = refl; to_come = refl }) server_streams
      client_streams

run_client-serve_example :
    End net wires_Duplex
      (from_opts "0.1" opts default_block_size)
      (wire [] ∷ wire [] ∷ [])
      (greeted_socket ∷ greeted_socket ∷ [])
      from_server_side
      from_client_side
      (9 ∷ [])
      (8 ∷ [])
      server_results
      client_results
      (serve net false
        (wire (from_client_side ++ 9 ∷ []))
        6
        (connections net (wire [] ∷ wire [] ∷ []) ++ notices net server_order))
      (run_client net "127.0.0.1:7559" "secret" "0.1" opts 5
        (from_server ∷ from_server ∷ (notices net ((1, ref true 1) ∷ []) ++ from_server ∷ [])))
unfolding script
run_client-serve_example =
    run_client-serve net wires_Duplex "secret" "127.0.0.1:7559" "0.1" opts server_results
      client_results script (9 ∷ []) (8 ∷ []) (wire (from_client_side ++ 9 ∷ []))
      (wire (from_server_side ++ 8 ∷ [])) (wire []) (wire [] ∷ [])
      (greeted_socket ∷ greeted_socket ∷ []) server_order ((1, ref true 1) ∷ [])
      ((0, ref true 0) ∷ []) 6 5 (omega arith) (omega arith) refl
      (record { reading = tt; writing = tt; sent_so_far = refl; to_come = refl })
      (record { reading = tt; writing = tt; sent_so_far = refl; to_come = refl }) server_streams
      client_streams

print_results-PrintSameSums_example :
    PrintSameSums net (from_opts "0.1" opts default_block_size) server_results client_results
unfolding from_opts
print_results-PrintSameSums_example =
    print_results-PrintSameSums net wires_Duplex (from_opts "0.1" opts default_block_size)
      (wire [] ∷ wire [] ∷ []) (greeted_socket ∷ greeted_socket ∷ []) from_server_side
      from_client_side (9 ∷ []) (8 ∷ []) server_results client_results
      (serve net false (wire (from_client_side ++ 9 ∷ [])) 6
        (connections net (wire [] ∷ wire [] ∷ []) ++ notices net server_order))
      (run_client net "127.0.0.1:7559" "secret" "0.1" opts 5
        (from_server ∷ from_server ∷ (notices net ((1, ref true 1) ∷ []) ++ from_server ∷ [])))
      whole_test refl refl (omega arith) (λ k s e. (_, refl)) (λ k s e. (_, refl))
