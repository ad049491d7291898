-- ===== src/Node/Creating/Tests.antt =====
-- Two masters that share an agent, of which one has a loopback server.
use hivescope.Prelude.{◌≡◌, refl, true, false, none, some, List, [], ◌∷◌, All, arith}
use hivescope.Node.Creating.{Request, MasterNode, create_master, create_masters}
use hivescope.Node.Creating.Separate.{AllApart, IsWhole, create_masters-Separate}

abbrev requests : List Request
requests =
    record { name = "M0"; agent_protocol = some 4; use_loopback = true; db = none }
    ∷ record { name = "M1"; agent_protocol = some 4; use_loopback = false; db = none }
    ∷ []

abbrev first : MasterNode
first =
    (create_master (record { name = "M0"; agent_protocol = some 4; use_loopback = true; db = none })
      5).0

loopback_records : (first.network.recorder ≡ some first.recorder) × (first.agent_protocol ≡ 4)
unfolding create_master
loopback_records = (refl, refl)

create_masters-Separate_example :
    AllApart 5 (create_masters requests 5) × All IsWhole (create_masters requests 5)
create_masters-Separate_example =
    create_masters-Separate 5 requests ((omega arith, tt), ((omega arith, tt), tt))
