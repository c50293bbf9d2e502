-- ===== src/Packet/ServerName/Examples.antt =====
-- A ClientHello with an extension of another type in front of the name "a.b".
use zngtcp.Base.{ℕ, ◌≡◌, ◌⊎◌, refl, List, [], ◌∷◌, ◌++◌, none, some, ok, arith}
use zngtcp.Conv.{put_uint16be}
use zngtcp.Packet.ServerName.{find_server_name}
use zngtcp.Packet.ServerName.Inside.{Within, find_server_name-Within}
use zngtcp.Packet.ServerName.Hello.{
  extensions, hello_body, client_hello, find_server_name-client_hello,
}

abbrev random : List ℕ
random =
    1 ∷ 2 ∷ 3 ∷ 4 ∷ 5 ∷ 6 ∷ 7 ∷ 8 ∷ 1 ∷ 2 ∷ 3 ∷ 4 ∷ 5 ∷ 6 ∷ 7 ∷ 8 ∷ 1 ∷ 2 ∷ 3 ∷ 4 ∷ 5 ∷ 6 ∷ 7 ∷ 8
    ∷ 1 ∷ 2 ∷ 3 ∷ 4 ∷ 5 ∷ 6 ∷ 7 ∷ 8 ∷ []

abbrev name : List ℕ
name = 97 ∷ 46 ∷ 98 ∷ []

find_server_name-client_hello_example :
    find_server_name (
      client_hello (
        hello_body random
          (9 ∷ [])
          (19 ∷ 1 ∷ [])
          (0 ∷ [])
          (extensions ((43, 3 ∷ 4 ∷ []) ∷ []) (some (name, 0 ∷ []))))
      ++ (7 ∷ []))
    ≡ ok (some name)
unfolding extensions put_uint16be
find_server_name-client_hello_example =
    find_server_name-client_hello random (9 ∷ []) (19 ∷ 1 ∷ []) (0 ∷ []) ((43, 3 ∷ 4 ∷ []) ∷ [])
      (some (name, 0 ∷ [])) (7 ∷ []) refl (omega arith, omega arith, omega arith)
      ((omega arith, omega arith), tt) (omega arith)

find_server_name-Within_example :
    (find_server_name (1 ∷ 0 ∷ 0 ∷ 9 ∷ 3 ∷ 3 ∷ []) ≡ ok none)
    ⊎ ((found : List ℕ) × (find_server_name (1 ∷ 0 ∷ 0 ∷ 9 ∷ 3 ∷ 3 ∷ []) ≡ ok (some found))
        × Within (1 ∷ 0 ∷ 0 ∷ 9 ∷ 3 ∷ 3 ∷ []) found)
find_server_name-Within_example = find_server_name-Within 1 (0 ∷ 0 ∷ 9 ∷ 3 ∷ 3 ∷ [])
