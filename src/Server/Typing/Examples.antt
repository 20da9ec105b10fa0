-- ===== src/Server/Typing/Examples.antt =====
-- The type of the answers at a concrete input.
use remo_broker.Base.{some, codes}
use remo_broker.Audit.Bounded.{bounded}
use remo_broker.Proto
use remo_broker.Server.Fetch.{dispatch_project}
use remo_broker.Server.Samples.{numbered, plane, peer, at_second}
use remo_broker.Server.Typing.{Answers, dispatch_project-Answers}

-- `FOO` from a cold cache.
dispatch_project-Answers_example :
    Answers plane.project.name
      (Proto.get (codes "FOO"))
      (dispatch_project bounded numbered
        (some 1)
        (codes "0.1.0")
        (Proto.get (codes "FOO"))
        peer
        (at_second 1)
        plane).0
dispatch_project-Answers_example =
    dispatch_project-Answers bounded numbered (some 1) (codes "0.1.0") (Proto.get (codes "FOO"))
      peer (at_second 1) plane
