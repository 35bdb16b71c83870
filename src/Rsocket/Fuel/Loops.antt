-- ===== src/Rsocket/Fuel/Loops.antt =====
-- The loops of rsocket/src/poll_wc.cpp and of recv_ in rdma_socket.cpp end by themselves.
