-- ===== src/Cli/Session/Calls/Refined.antt =====
-- That a user's commands amount to the calls of the daemon that they stand for.
use raag.App.{App}
use raag.Cli
use raag.Cli.{Cli, then_do, Fields, IsGob, always, reads}
use raag.Cli.Session.{Event, types, arrives}
use raag.Discovery.World.{World}
use raag.Player.{Float}

-- A command's machine decodes as gob documents.
abbrev pub HasGob : {x : Float} → Event x → Type 0
HasGob (types c m) = IsGob m
HasGob (arrives call) = Unit
