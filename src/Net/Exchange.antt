-- ===== src/Net/Exchange.antt =====
-- From any state of the net, a user's packet can get to the server's tunnel and an answer back.
use s_vpn.Common.{List}
