-- ===== src/Relay/Registry.antt =====
-- How long the registry of nat/relay_server.py keeps a node.
use Prim.Native.String.{String}
use seigr_toolset_transmissi.Common.Dict.{string_eq}
