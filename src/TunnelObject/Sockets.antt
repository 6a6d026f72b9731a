-- ===== src/TunnelObject/Sockets.antt =====
-- One socket among the bridge sockets of packages/server/src/tunnel-object.ts is changed.
use shuvtunnel.Common.{ℕ, ◌≡◌, refl, List, [], ◌∷◌, ◌++◌, false, ◌==◌, arith, any, some}
use shuvtunnel.TunnelObject.{BridgeSocket, change_socket, find_socket}

change_socket-absent :
    (id : ℕ) (f : BridgeSocket → BridgeSocket) (ss : List BridgeSocket)
    → any (λ s. s.id == id) ss ≡ false
    → change_socket id f ss ≡ ss
unfolding change_socket
change_socket-absent id f [] apart = refl
change_socket-absent id f (s ∷ ss) apart = ground (arith, change_socket-absent id f ss)

-- A socket whose identity no other one has is changed where it stands.
pub change_socket-one :
    (id : ℕ) (f : BridgeSocket → BridgeSocket) (before after : List BridgeSocket)
    (socket : BridgeSocket)
    → socket.id ≡ id
    → any (λ s. s.id == id) before ≡ false
    → any (λ s. s.id == id) after ≡ false
    → change_socket id f (before ++ socket ∷ after) ≡ before ++ f socket ∷ after
unfolding change_socket
change_socket-one id f [] after socket same apart_before apart_after =
    ground (arith, change_socket-absent id f after apart_after)
change_socket-one id f (s ∷ before) after socket same apart_before apart_after =
    ground (arith, change_socket-one id f before after socket same)

pub find_socket-one :
    (before after : List BridgeSocket) (socket : BridgeSocket)
    → any (λ s. s.id == socket.id) before ≡ false
    → find_socket socket.id (before ++ socket ∷ after) ≡ some socket
unfolding find_socket
find_socket-one [] after socket apart = ground arith
find_socket-one (s ∷ before) after socket apart =
    ground (arith, find_socket-one before after socket)
